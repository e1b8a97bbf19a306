-- ===== src/Podman/Logs.antt =====
-- GetLogs and combinedLogReader of internal/podman/podman.go: a container's log, read through two
-- channels. What `select` takes from the channels comes in as a list of events, in the order taken.
pub mod Drain
use mathlib.Core.Option
use podman_swarm.Base.{
  ℕ, zero, suc, ◌+◌, ◌≡◌, ◌<◌, refl, ap, ◌∙◌, Bool, true, false, Option, none, some, List, [], ◌∷◌,
  ◌++◌, ◌||◌, append_assoc, append-nil, length, length-append, take, drop, take-append-drop, arith,
  if◌then◌else◌,
}
use podman_swarm.Base.Text.{Text, str}

-- A line on one of the channels, the end of one, or an error of the log call.
pub data Event : Type 0 where
  out_line err_line : Text → Event
  out_end err_end : Event
  failed : Event

-- A channel that has ended is nil.
pub record Reader : Type 0 where
  pub out_open : Bool
  pub err_open : Bool
  pub buffer : Text
  pub closed : Bool

pub data Outcome : Type 0 where
  bytes : Text → Outcome
  eof error : Outcome

-- GetLogs: a reader of two channels that are open.
abbrev pub get_logs : Reader
get_logs = record { out_open = true; err_open = true; buffer = []; closed = false }

-- `copy(p, r.buffer)` with n bytes of room.
copied : ℕ → Reader → Reader × Outcome
copied n r = (record r { buffer = drop n r.buffer }, bytes (take n r.buffer))

-- What follows the select: with both channels at their end the reader closes.
settled : ℕ → Reader → Reader × Outcome
unfolding copied
settled n r = if r.out_open || r.err_open then copied n r else elim r.buffer [
  | [] ↦ (record r { closed = true }, eof)
  | c ∷ s ↦ copied n (record r { closed = true })
]

-- The select and what follows it, for a buffer that is empty.
unfoldable pub take_event : ℕ → Event → Reader → Reader × Outcome
unfolding settled copied
take_event n (out_line line) r = settled n (record r { buffer = line ++ str "\n" })
take_event n (err_line line) r = settled n (record r { buffer = line ++ str "\n" })
take_event n out_end r = settled n (record r { out_open = false })
take_event n err_end r = settled n (record r { err_open = false })
take_event n failed r = (r, error)

-- Read with n bytes of room, and the events that are left; `none` when the select waits for ever.
unfoldable pub read : ℕ → List Event → Reader → Option (Reader × Outcome × List Event)
unfolding take_event copied
read n events r = elim r.closed [
  | true ↦ some (r, eof, events)
  | false ↦ elim r.buffer [
    | c ∷ s ↦ let (r', o) = copied n r in some (r', o, events)
    | [] ↦ elim events [ [] ↦ none | e ∷ es ↦ let (r', o) = take_event n e r in some (r', o, es) ]
  ]
]

-- Reading until the end, as io.ReadAll does with a buffer of n bytes: the text, if the reads that
-- the fuel allows come to the end without an error.
unfoldable pub read_all : ℕ → ℕ → List Event → Reader → Option Text
read_all zero n events r = none
read_all (suc fuel) n events r = elim (read n events r) [
  | none ↦ none
  | some (r', eof, es) ↦ some []
  | some (r', error, es) ↦ none
  | some (r', bytes t, es) ↦ Option.map (λ s. t ++ s) (read_all fuel n es r')
]

-- The lines in the order taken, each with a line feed.
abbrev pub text_of : List Event → Text
text_of [] = []
text_of (out_line line ∷ es) = (line ++ str "\n") ++ text_of es
text_of (err_line line ∷ es) = (line ++ str "\n") ++ text_of es
text_of (e ∷ es) = text_of es

-- Events of two channels, open or not, until both have ended, with no error of the log call.
abbrev pub Complete : Bool → Bool → List Event → Type 0
Complete o e [] = ⊥
Complete o e (out_line line ∷ es) = (o ≡ true) × Complete o e es
Complete o e (err_line line ∷ es) = (e ≡ true) × Complete o e es
Complete o e (out_end ∷ es) = (o ≡ true) × (if e then Complete false true es else es ≡ [])
Complete o e (err_end ∷ es) = (e ≡ true) × (if o then Complete true false es else es ≡ [])
Complete o e (failed ∷ es) = ⊥

-- Reads that suffice: one for each byte, and two for each event.
abbrev pub reads : List Event → ℕ
reads [] = 0
reads (out_line line ∷ es) = length line + 2 + reads es
reads (err_line line ∷ es) = length line + 2 + reads es
reads (e ∷ es) = 1 + reads es
