-- ===== src/Key/Versions.antt =====
-- What a read at a sequence number ought to find: the newest version of a key, among records in
-- any order, and the last write of a log.
use jadedb.Common.{ℕ, ◌≤◌, ◌<◌, ◌≡◌, Bool, ◌&&◌, Option, none, some, arith}
use jadedb.Common.{Option-cases, inl, inr, List, [], ◌∷◌, leb, ltb, if◌then◌else◌, All}
use jadedb.Common.Order.{bytes_eq}
use jadedb.Key.{InternalKey, Record, put, delete}

-- Is `k` a version of `user_key` that a read at `max_seq` may see?
abbrev pub sees : List ℕ → ℕ → InternalKey → Bool
sees user_key max_seq k = bytes_eq k.user_key user_key && leb k.seq max_seq

-- Of two versions the one with the greater sequence number, the first where they are equal.
abbrev pub newer : Record → Option Record → Option Record
newer x none = some x
newer x (some y) = if ltb x.0.seq y.0.seq then some y else some x

-- The visible version with the greatest sequence number, by a search through all records.
unfoldable pub newest : List ℕ → ℕ → List Record → Option Record
newest user_key max_seq [] = none
newest user_key max_seq (r ∷ rs) =
    let rest = newest user_key max_seq rs in
    if sees user_key max_seq r.0 then newer r rest else rest

-- What a read gives for the version that it finds: the value, or none for a tombstone.
abbrev pub value_of : Option Record → Option (List ℕ)
value_of none = none
value_of (some (k, value)) = elim k.kind [ put ↦ some value | delete ↦ none ]

-- The last record of a log that a read may see, or `found` if there is none.
unfoldable pub last_write : List ℕ → ℕ → List Record → Option Record → Option Record
last_write user_key max_seq [] found = found
last_write user_key max_seq (r ∷ rs) found =
    last_write user_key max_seq rs (if sees user_key max_seq r.0 then some r else found)

-- Sequence numbers rise along the log, all above `bound`.
abbrev pub Rising : ℕ → List Record → Type 0
Rising bound [] = Unit
Rising bound (r ∷ rs) = (bound < r.0.seq) × Rising r.0.seq rs

abbrev pub SeqsBelow : ℕ → List Record → Type 0
SeqsBelow bound rs = All (λ r. r.0.seq < bound) rs

pub SeqsBelow-mono : (b c : ℕ) (rs : List Record) → b ≤ c → SeqsBelow b rs → SeqsBelow c rs
SeqsBelow-mono b c [] h s = tt
SeqsBelow-mono b c (r ∷ rs) h s = (omega arith, SeqsBelow-mono b c rs h s.1)

pub newest_below :
    (user_key : List ℕ) (max_seq b : ℕ) (rs : List Record) (y : Record)
    → SeqsBelow b rs
    → newest user_key max_seq rs ≡ some y
    → y.0.seq < b
unfolding newest
newest_below u s b [] y h e = cc
newest_below u s b (r ∷ rs) y h e = ground (arith, newest_below u s b rs y h.1)

-- A record that is newer than all others is found if it can be seen, and else changes nothing.
pub newest-cons :
    (user_key : List ℕ) (max_seq : ℕ) (r : Record) (rs : List Record)
    → SeqsBelow r.0.seq rs
    → newest user_key max_seq (r ∷ rs)
      ≡ (if sees user_key max_seq r.0 then some r else newest user_key max_seq rs)
newest-cons u s r rs h = elim (Option-cases (newest u s rs)) [
  | inl e ↦ unfold newest in ground arith
  | inr (y, e) ↦ let q = newest_below u s r.0.seq rs y h e in unfold newest in ground arith
]
