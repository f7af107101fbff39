-- ===== src/Text/Tests.antt =====
-- The theorems on strings, at small texts.
use hexa_os_alpha_build.Base.{ℕ, ◌+◌, ◌-◌, ◌^◌, ◌≡◌, arith, List, [], ◌∷◌, ◌==◌}
use hexa_os_alpha_build.Text.Numbers.{atoi, itoa, atoi-itoa, digits_from, digits_from_enough}
use hexa_os_alpha_build.Text.Password.{encode_pwd, check_pwd, pwd_hash, check-encode_pwd}

-- -42
abbrev minus_42 : ℕ
minus_42 = 2 ^ 32 - 42

atoi-itoa_example : atoi (itoa minus_42 10) ≡ minus_42
atoi-itoa_example = atoi-itoa minus_42 (omega arith)

digits_from_enough_example : digits_from (32 + 8) 255 16 ≡ digits_from 32 255 16
digits_from_enough_example = digits_from_enough 8 255 16 (omega arith) (omega arith)

-- "root" and "toor"
abbrev root_text : List ℕ
root_text = b'r' ∷ b'o' ∷ b'o' ∷ b't' ∷ []

abbrev toor_text : List ℕ
toor_text = b't' ∷ b'o' ∷ b'o' ∷ b'r' ∷ []

check-encode_pwd_example :
    check_pwd toor_text (encode_pwd (λ _. 0) root_text 0xa5)
    ≡ (pwd_hash toor_text 0xa5 5 == pwd_hash root_text 0xa5 5)
check-encode_pwd_example = check-encode_pwd (λ _. 0) root_text toor_text 0xa5 (omega arith)
