-- ===== src/Net/Loopback.antt =====
-- The loopback device as a queue of bytes.
use native.Mathlib.Decide.{ℕ_discrete, dec_lt}
use hexa_os_alpha_build.Base.{
  ℕ, zero, suc, ◌-◌, ◌<◌, ◌≡◌, refl, ap, List, [], ◌∷◌, ◌++◌, arith, sym, ◌∙◌, eq→beq, ne→beq,
  lt→ltb, le→ltb, none, some, is_neg, ◌⊎◌, inl, inr, false,
}
use hexa_os_alpha_build.Base.Lists.{length, take, drop, latest}
use hexa_os_alpha_build.Ring.{contents, contents_empty, contents_get, next, next-lt}
use hexa_os_alpha_build.Ring.Overwrite.{Bytes, IsValid, held, put_all_lem}
use hexa_os_alpha_build.Net.{Net, net_loopback_send, recv_loop, net_loopback_recv}

-- The bytes that wait to be received.
abbrev pub waiting : Net → List ℕ
waiting n = held 4096 n.loopback

-- `net_loopback_send` refuses more than 4096 bytes and then changes nothing. Otherwise it returns the
-- number of bytes, and the device keeps the last 4095 of the bytes that waited and those sent.
pub net_loopback_send_lem :
    (n : Net) (bytes : List ℕ)
    → IsValid 4096 n.loopback
    → ((4096 < length bytes) × (net_loopback_send n bytes ≡ (none, n)))
      ⊎ (((net_loopback_send n bytes).0 ≡ some (length bytes))
          × (waiting (net_loopback_send n bytes).1 ≡ latest 4095 (waiting n ++ bytes))
          × IsValid 4096 (net_loopback_send n bytes).1.loopback)
unfolding net_loopback_send
net_loopback_send_lem n bytes v = elim (dec_lt 4096 (length bytes)) [
  | yes lt ↦ inl (lt, rw (lt→ltb 4096 (length bytes) lt) refl)
  | no ge ↦
      let kept = put_all_lem 4096 n.loopback bytes v (omega arith) in
      inr (rw (le→ltb 4096 (length bytes) (omega arith)) (refl, kept.0, kept.1))
]

recv_loop_lem :
    (k : ℕ) (r : Bytes)
    → IsValid 4096 r
    → ((recv_loop k r).0 ≡ take k (held 4096 r))
      × (held 4096 (recv_loop k r).1 ≡ drop k (held 4096 r))
      × IsValid 4096 (recv_loop k r).1
unfolding recv_loop
recv_loop_lem zero r v = (refl, refl, v)
recv_loop_lem (suc k) r v = elim (ℕ_discrete r.tail r.head) [
  | yes e ↦
      let empty : held 4096 r ≡ [] =
        ap (contents r.buf 4096 r.head) e ∙ contents_empty r.buf 4096 r.head v.head_in in
      rw (eq→beq r.tail r.head e) (rw empty refl, rw empty refl, v)
  | no ne ↦
      let rest =
        recv_loop_lem k (record r { tail = next 4096 r.tail })
          (omega (arith, v, next-lt 4096 r.tail v.tail_in)) in
      let e = contents_get r.buf 4096 r.head r.tail v (λ e. ne (sym e)) in
      rw (ne→beq r.tail r.head ne, e) (ap (λ bs. r.buf r.tail ∷ bs) rest.0, rest.1, rest.2)
]

-- `net_loopback_recv` of up to `maxlen` bytes takes the oldest bytes that wait, in order.
pub net_loopback_recv_lem :
    (n : Net) (maxlen : ℕ)
    → IsValid 4096 n.loopback
    → maxlen < 2147483648
    → ((net_loopback_recv n maxlen).0 ≡ take maxlen (waiting n))
      × (waiting (net_loopback_recv n maxlen).1 ≡ drop maxlen (waiting n))
      × IsValid 4096 (net_loopback_recv n maxlen).1.loopback
unfolding net_loopback_recv
net_loopback_recv_lem n maxlen v h =
    let e : is_neg maxlen ≡ false = ground arith in rw e (recv_loop_lem maxlen n.loopback v)

take-all : (bs : List ℕ) → take (length bs) bs ≡ bs
take-all [] = refl
take-all (b ∷ bs) = ap (λ cs. b ∷ cs) (take-all bs)

-- Up to 4095 bytes sent while none wait are what is received, in order.
pub recv-send :
    (n : Net) (bytes : List ℕ)
    → IsValid 4096 n.loopback
    → waiting n ≡ []
    → length bytes < 4096
    → (net_loopback_recv (net_loopback_send n bytes).1 (length bytes)).0 ≡ bytes
recv-send n bytes v e l = elim (net_loopback_send_lem n bytes v) [
  | inl (big, _) ↦ absurd (omega arith)
  | inr (_, kept, v') ↦
      let short : length bytes - 4095 ≡ 0 = omega arith in
      let all : waiting (net_loopback_send n bytes).1 ≡ bytes = kept ∙ rw (e, short) refl in
      (net_loopback_recv_lem (net_loopback_send n bytes).1 (length bytes) v' (omega arith)).0
      ∙ ap (take (length bytes)) all
      ∙ take-all bytes
]
