-- ===== src/Dns/Messages.antt =====
-- What the server uses of the library github.com/miekg/dns: messages, and what makes and sends them.
use podman_swarm.Base.{ℕ, Bool, Option, List, Result}
use podman_swarm.Base.Text.{Text}

pub record Question : Type 0 where
  pub name : Text
  pub qtype : ℕ

-- dns.Msg, with the records of the type `Rr`.
pub record Msg (Rr : Type 0) : Type 0 where
  pub questions : List Question
  pub rcode : ℕ
  pub authoritative : Bool
  pub answer : List Rr
  pub extra : List Rr

pub data Net : Type 0 where
  udp tcp : Net

-- The target of a record that is a CNAME; `new(Msg)` with SetReply; NewRR and the record that it
-- returns with an error; and Exchange, by the place of the upstream in the list, over either
-- network, which returns an error, no message or a message.
pub record Dns (Rr : Type 0) : Type 0 where
  pub cname_target : Rr → Option Text
  pub reply_to : Msg Rr → Msg Rr
  pub new_rr : Text → Option Rr
  pub nil_rr : Rr
  pub exchange : ℕ → Net → Text → Msg Rr → Result Text (Option (Msg Rr))

abbrev pub rcode_success : ℕ
rcode_success = 0

abbrev pub rcode_server_failure : ℕ
rcode_server_failure = 2

abbrev pub rcode_refused : ℕ
rcode_refused = 5

abbrev pub type_a : ℕ
type_a = 1

abbrev pub type_aaaa : ℕ
type_aaaa = 28

abbrev pub type_srv : ℕ
type_srv = 33
