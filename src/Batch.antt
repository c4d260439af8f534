-- ===== src/Batch.antt =====
-- The garbage of a worker, app/src/main/cpp/simple-socks5.c: connections are taken out of the worker's
-- list and closed under its lock, and their references are dropped outside it, from a bin of fixed size.
-- What a connection and the shared state are, and what dropping a reference does, is the engine's.
pub mod Sweep
pub mod Drain
use g_proxy_pro.Base.{
  ℕ, zero, suc, ◌+◌, ◌≡◌, Bool, true, false, Option, none, some, List, [], ◌∷◌, ◌++◌, ltb,
  if◌then◌else◌, length,
}

-- Dropping a reference, whose third result is the slot that it released if it was the last, and taking a
-- connection out of the worker's list. The two do not disturb each other.
pub record Engine (C S : Type 0) : Type 0 where
  pub unref : C → S → C × S × Option ℕ
  pub unlink : C → S → S
  pub unref-unlink :
      (c d : C) (s : S)
      → unref c (unlink d s) ≡ ((unref c s).0, unlink d (unref c s).1, (unref c s).2)

abbrev pub max_events : ℕ
max_events = 512

-- What a series of drops leaves: the connections after it, the shared state, and the slots released.
pub record Dropped (C S : Type 0) : Type 0 where
  pub ended : List C
  pub state : S
  pub slots : List ℕ

abbrev pub add_slot : Option ℕ → List ℕ → List ℕ
add_slot none slots = slots
add_slot (some i) slots = i ∷ slots

module _ {C S : Type 0} (e : Engine C S) where
  open e use {unref, unlink}

  pub unref_all : List C → S → Dropped C S
  unref_all [] s = record { ended = []; state = s; slots = [] }
  unref_all (c ∷ cs) s =
      let (c1, s1, slot) = unref c s in
      let rest = unref_all cs s1 in
      record { ended = c1 ∷ rest.ended; state = rest.state; slots = add_slot slot rest.slots }

  -- The scan, with the connections that stay, the bin, and what has been dropped on the way.
  pub record Swept : Type 0 where
    pub kept : List C
    pub garbage : List C
    pub dropped : Dropped C S

  abbrev pub keep : C → Swept → Swept
  keep c r = record r { kept = c ∷ r.kept }

  abbrev pub followed : Dropped C S → Swept → Swept
  followed d r = record r {
    dropped = record {
      ended = d.ended ++ r.dropped.ended;
      state = r.dropped.state;
      slots = d.slots ++ r.dropped.slots;
    };
  }

  module _ (look : C → C) (due : C → Bool) (mark : C → C) (room : ℕ) where
    -- A full bin is emptied, with the lock given up meanwhile, before it takes one more.
    pub sweep : List C → List C → S → Swept
    sweep [] garbage s = record {
      kept = [];
      garbage = garbage;
      dropped = record { ended = []; state = s; slots = [] };
    }
    sweep (c ∷ cs) garbage s =
        let gone = mark (look c) in
        let stay = sweep cs garbage s in
        let collect = sweep cs (garbage ++ gone ∷ []) (unlink gone s) in
        let flushed = unref_all garbage (unlink gone s) in
        let flush = sweep cs (gone ∷ []) flushed.state in
        if due (look c)
        then (if ltb (length garbage) room then collect else followed flushed flush)
        else keep (look c) stay

  abbrev pub joined : Dropped C S → Option (List C × Dropped C S) → Option (List C × Dropped C S)
  joined d none = none
  joined d (some (rest, d')) =
      some (
        rest,
        record { ended = d.ended ++ d'.ended; state = d'.state; slots = d.slots ++ d'.slots },
      )

  module _ (valid : C → Bool) (mark : C → C) where
    -- One batch of the exit: every connection that is passed leaves the list, and those that are not
    -- poisoned are collected, as long as there is room.
    pub take_batch : ℕ → List C → S → List C × List C × S
    take_batch zero cs s = ([], cs, s)
    take_batch (suc n) [] s = ([], [], s)
    take_batch (suc n) (c ∷ cs) s =
        let (batch, rest, s') = take_batch (if valid c then n else suc n) cs (unlink c s) in
        (if valid c then mark c ∷ batch else batch, rest, s')

    -- Batch after batch, until one is not full. `none` means that the fuel ran out.
    pub drain : ℕ → ℕ → List C → S → Option (List C × Dropped C S)
    drain zero room cs s = none
    drain (suc fuel) room cs s =
        let (batch, rest, s1) = take_batch room cs s in
        let d = unref_all batch s1 in
        let more = joined d (drain fuel room rest d.state) in
        if ltb (length batch) room then some (rest, d) else more
