-- ===== src/Podman/Logs/Drain.antt =====
-- A log that is read to its end.
use mathlib.Core.Option
use podman_swarm.Base.{
  ℕ, zero, suc, ◌+◌, ◌≡◌, ◌<◌, refl, sym, ap, ◌∙◌, Bool, true, false, Option, some, List, [], ◌∷◌,
  ◌++◌, append_assoc, length, length-append, take, drop, take-append-drop, arith,
}
use podman_swarm.Base.Text.{Text, str}
use podman_swarm.Podman.Logs.{
  Event, out_line, err_line, out_end, err_end, failed, Reader, get_logs, copied, settled,
  take_event, read, read_all, text_of, Complete, reads,
}

piece : (n : ℕ) (x t : Text) → take n x ++ (drop n x ++ t) ≡ x ++ t
piece n x t = sym (append_assoc (take n x) (drop n x) t) ∙ ap (λ s. s ++ t) (take-append-drop n x)

drop-lt : (n : ℕ) (x : Text) → 0 < n → 0 < length x → length (drop n x) < length x
drop-lt zero x h k = absurd (omega arith)
drop-lt (suc n) [] h k = absurd (omega arith)
drop-lt (suc zero) (c ∷ x) h k = omega arith
drop-lt (suc (suc n)) (c ∷ []) h k = omega arith
drop-lt (suc (suc n)) (c ∷ d ∷ x) h k =
    omega (arith, drop-lt (suc n) (d ∷ x) (omega arith) (omega arith))

abbrev open_reader : Bool → Bool → Text → Reader
open_reader o e s = record { out_open = o; err_open = e; buffer = s; closed = false }

-- A read that copies from the buffer, and what the reads behind it return.
copy_step :
    (n : ℕ) (x rest : Text) (o : Option Text)
    → o ≡ some (drop n x ++ rest)
    → Option.map (λ s. take n x ++ s) o ≡ some (x ++ rest)
copy_step n x rest o h = ap (Option.map (λ s. take n x ++ s)) h ∙ ap some (piece n x rest)

line_room : (n : ℕ) (line : Text) → 0 < n → length (drop n (line ++ str "\n")) < length line + 1
line_room n line h = omega (arith, drop-lt n (line ++ str "\n") h, length-append line (str "\n"))

length-drop_nil : (n : ℕ) → length {A = ℕ} (drop n []) ≡ 0
length-drop_nil zero = refl
length-drop_nil (suc n) = refl

drain :
    (fuel n : ℕ) (es : List Event) (o e : Bool) (s : Text)
    → 0 < n
    → Complete o e es
    → length s + reads es < fuel
    → read_all fuel n es (open_reader o e s) ≡ some (s ++ text_of es)
unfolding read_all read take_event settled copied
drain zero n es o e s h c k = absurd (omega arith)
drain (suc f) n es o e (b ∷ s) h c k =
    copy_step n (b ∷ s) (text_of es) _
      (drain f n es o e (drop n (b ∷ s)) h c (omega (arith, drop-lt n (b ∷ s) h (omega arith))))
drain (suc f) n [] o e [] h c k = absurd c
drain (suc f) n (out_line line ∷ es) false e [] h c k = cc
drain (suc f) n (out_line line ∷ es) true e [] h c k =
    copy_step n (line ++ str "\n") (text_of es) _
      (drain f n es true e (drop n (line ++ str "\n")) h c.1 (omega (arith, line_room n line h)))
drain (suc f) n (err_line line ∷ es) o false [] h c k = cc
drain (suc f) n (err_line line ∷ es) false true [] h c k =
    copy_step n (line ++ str "\n") (text_of es) _ (
      drain f n es false true (drop n (line ++ str "\n")) h c.1 (omega (arith, line_room n line h)))
drain (suc f) n (err_line line ∷ es) true true [] h c k =
    copy_step n (line ++ str "\n") (text_of es) _
      (drain f n es true true (drop n (line ++ str "\n")) h c.1 (omega (arith, line_room n line h)))
drain (suc f) n (out_end ∷ es) false e [] h c k = cc
drain (suc f) n (out_end ∷ es) true true [] h c k =
    copy_step n [] (text_of es) _
      (drain f n es false true (drop n []) h c.1 (omega (arith, length-drop_nil n)))
drain (suc f) n (out_end ∷ es) true false [] h c k = rw c.1 refl
drain (suc f) n (err_end ∷ es) o false [] h c k = cc
drain (suc f) n (err_end ∷ es) true true [] h c k =
    copy_step n [] (text_of es) _
      (drain f n es true false (drop n []) h c.1 (omega (arith, length-drop_nil n)))
drain (suc f) n (err_end ∷ es) false true [] h c k = rw c.1 refl
drain (suc f) n (failed ∷ es) o e [] h c k = absurd c

-- Whatever order the lines of the two channels come in, reading the log of a container to its end
-- with room for a byte or more ends, after at most one read for each byte and two for each event,
-- and returns all lines in that order, each with a line feed, if both channels end and the log call
-- has no error.
pub read_all-text_of :
    (fuel n : ℕ) (es : List Event)
    → 0 < n
    → Complete true true es
    → reads es < fuel
    → read_all fuel n es get_logs ≡ some (text_of es)
read_all-text_of fuel n es h c k = drain fuel n es true true [] h c (omega arith)
