-- ===== src/Log/Tests.antt =====
-- The log after a short message.
use hexa_os_alpha_build.Base.{ℕ, ◌≡◌, refl, List, [], ◌∷◌}
use hexa_os_alpha_build.Log.{Log, hex_digits, hex_digit}

-- The tail is about to wrap.
abbrev log : Log
log = record { ring = record { buf = λ _. 65; head = 4094; tail = 4090 }; log_count = 4 }

abbrev hello : List ℕ
hello = 104 ∷ 101 ∷ 108 ∷ 108 ∷ 111 ∷ []

beef : hex_digits 8 48879 ≡ 48 ∷ 48 ∷ 48 ∷ 48 ∷ 66 ∷ 69 ∷ 69 ∷ 70 ∷ []
unfolding hex_digits hex_digit
beef = refl
