-- ===== src/Dns.antt =====
-- app/src/main/cpp/udp_dns.c and .h: which job resolves a host name, and where a frame waits for it.
-- A C string is the list of its bytes without the zero byte at its end.
pub mod Cache
pub mod FreeSlot
pub mod Relay
mod Tests
use g_proxy_pro.Base.{
  ℕ, zero, suc, ◌+◌, Bool, true, false, not, ◌&&◌, Option, none, some, List, [], ◌∷◌, leb, ◌==◌,
  if◌then◌else◌, bytes_eq,
}

abbrev pub host_max : ℕ
host_max = 256

abbrev pub job_count : ℕ
job_count = 32

abbrev pub pend_slots : ℕ
pend_slots = 2

abbrev pub pend_frame_max : ℕ
pend_frame_max = 1280

-- `udp_dns_state_t`
pub data JobState : Type 0 where
  free inflight done_ok done_fail : JobState

abbrev pub is_free : JobState → Bool
is_free JobState.free = true
is_free JobState.inflight = false
is_free JobState.done_ok = false
is_free JobState.done_fail = false

-- `udp_dns_job_t`
pub record Job : Type 0 where
  pub state : JobState
  pub host : List ℕ
  pub port : List ℕ
  pub ip : List ℕ

-- `udp_dns_pend_t`; its `len` is the length of `payload`.
pub record Pend : Type 0 where
  pub used : Bool
  pub host : List ℕ
  pub port : List ℕ
  pub payload : List ℕ

-- From index `i` on.
find_from : List Job → List ℕ → ℕ → Option ℕ
find_from [] host i = none
find_from (j ∷ jobs) host i =
    let rest = find_from jobs host (suc i) in
    if is_free j.state then rest else if bytes_eq j.host host then some i else rest

pub job_find : List Job → List ℕ → Option ℕ
unfolding find_from
job_find jobs [] = none
job_find jobs (c ∷ host) = find_from jobs (c ∷ host) 0

alloc_from : List Job → ℕ → Option ℕ
alloc_from [] i = none
alloc_from (j ∷ jobs) i =
    let rest = alloc_from jobs (suc i) in if is_free j.state then some i else rest

pub job_alloc : List Job → Option ℕ
unfolding alloc_from
job_alloc jobs = alloc_from jobs 0

unfoldable pub pend_count : List Pend → ℕ
pend_count [] = 0
pend_count (p ∷ pend) = let rest = pend_count pend in if p.used then rest + 1 else rest

free_slot_from : List Pend → ℕ → Option ℕ
free_slot_from [] i = none
free_slot_from (p ∷ pend) i =
    let rest = free_slot_from pend (suc i) in if not p.used then some i else rest

pub pend_free_slot : List Pend → Option ℕ
unfolding free_slot_from
pend_free_slot pend = free_slot_from pend 0

unfoldable pub hold_ok : ℕ → Bool
hold_ok payload_len = if payload_len == 0 then false else leb payload_len pend_frame_max
