-- ===== src/Pipe/Interleave.antt =====
-- Readers and writers of one pipe, interleaved byte by byte as the critical sections of `pipe_read`
-- and `pipe_write` allow.
use mathlib.Core.List.{append_assoc}
use hexa_os_alpha_build.Base.{ℕ, ◌<◌, ◌≡◌, some, List, [], ◌∷◌, ◌++◌, arith, inl, inr}
use hexa_os_alpha_build.Base.Lists.{length}
use hexa_os_alpha_build.Pipe.{Pipe, read_step, write_step}
use hexa_os_alpha_build.Pipe.Stream.{IsValid, bytes, read_step_lem, write_step_lem, length-bytes-lt}

-- The pipe, the bytes that all writers have put into it, and those that all readers have taken.
pub record World : Type 0 where
  pub pipe : Pipe
  pub sent : List ℕ
  pub received : List ℕ

pub data Step : World → World → Type 0 where
  reads :
      (w : World) (b : ℕ) (q : Pipe)
      → read_step w.pipe ≡ some (b, q)
      → Step w (record w { pipe = q; received = w.received ++ b ∷ [] })
  writes :
      (w : World) (b : ℕ) (q : Pipe)
      → write_step w.pipe b ≡ some q
      → Step w (record w { pipe = q; sent = w.sent ++ b ∷ [] })

pub data Reach (w : World) : World → Type 0 where
  here : Reach w w
  next : {u v : World} → Reach w u → Step u v → Reach w v

-- No byte is lost, made up, or out of order.
pub record IsFifo (w : World) : Type 0 where
  pub valid : IsValid w.pipe
  pub order : w.sent ≡ w.received ++ bytes w.pipe

Step-IsFifo : {w v : World} → Step w v → IsFifo w → IsFifo v
Step-IsFifo (reads w b q e) f = elim (read_step_lem w.pipe f.valid) [
  | inl (e', _) ↦ cc
  | inr (b', q', e', e'', v, _, _) ↦
      let same : (b' ≡ b) × (q' ≡ q) = ground arith in
      record {
        valid = rw (← same.1) v;
        order = ground (arith, f.order, append_assoc w.received (b ∷ []) (bytes q));
      }
]
Step-IsFifo (writes w b q e) f = elim (write_step_lem w.pipe b f.valid) [
  | inl (e', _) ↦ cc
  | inr (q', e', e'', v, _, _) ↦
      let same : q' ≡ q = ground arith in
      record {
        valid = rw (← same) v;
        order = ground (arith, f.order, append_assoc w.received (bytes w.pipe) (b ∷ []));
      }
]

Reach-IsFifo : {w v : World} → Reach w v → IsFifo w → IsFifo v
Reach-IsFifo here f = f
Reach-IsFifo (next r s) f = Step-IsFifo s (Reach-IsFifo r f)

-- Whatever the readers and writers of a pipe do, in any order, from a state in which all that was
-- sent is received or in the pipe: what has been received is what was sent, in order, less what is
-- still in the pipe, which is under 4096 bytes.
pub Reach-fifo :
    {w v : World}
    → Reach w v
    → IsFifo w
    → (v.sent ≡ v.received ++ bytes v.pipe) × (length (bytes v.pipe) < 4096)
Reach-fifo {w} {v} r f = let g = Reach-IsFifo r f in (g.order, length-bytes-lt v.pipe g.valid)
