-- ===== src/Tests/Sample.antt =====
-- Concrete parameters and data that the tests share.

use wispers_access.Host.Store.Calls.{GuestNode}
use wispers_access.Host.Store.Db.{External, GuestRecord, InviteRecord, IsFresh, Tables}
use wispers_access.Host.Store.Integrity.{IsConsumed, IsSound}
use wispers_access.Prelude.{
  List, Option, Text, [], all, any, ap, arith, codes, false, if◌then◌else◌, is_whitespace, ltb,
  none, refl, some, suc, text_eq, true, ℕ, ◌+◌, ◌-◌, ◌==◌, ◌∷◌, ◌≡◌,
}
use wispers_access.Wire.Invite.{Encodings}
use wispers_access.Wire.Invite.RoundTrip.{IsLawful, is_plain}

abbrev largest : List ℕ → ℕ
largest [] = 0
largest (n ∷ ns) = let m = largest ns in if ltb m n then n else m

-- Row ids as SQLite gives them, one more than the largest, and a hash that keeps its input.
abbrev pub demo : External
demo = record { sha256 = λ s. s; next_rowid = λ ids. suc (largest ids) }

above_all : (ids : List ℕ) (n : ℕ) → ltb (largest ids) n ≡ true → any (λ id. id == n) ids ≡ false
above_all [] n h = refl
above_all (id ∷ ids) n h = ground (arith, above_all ids n)

pub demo-IsFresh : IsFresh demo
demo-IsFresh ids = above_all ids (suc (largest ids)) (ground arith)

abbrev pub secret : Text
secret = codes "sss"

abbrev pub peer_a : Text
peer_a = codes "a"

abbrev pub peer_b : Text
peer_b = codes "ab"

abbrev pub invite : InviteRecord
invite = record {
  id = 1;
  secret_hash = secret;
  user_id = codes "u";
  node_name = codes "n";
  created_at = 0;
  expires_at = 100;
  consumed_at = none;
}

abbrev pub invited : Tables
invited = record { invites = invite ∷ []; guests = [] }

pub invited-IsSound : IsSound invited
invited-IsSound = record {
  ids = (refl, tt);
  hashes = (refl, tt);
  numbers = tt;
  peers = tt;
  single_use = tt;
  bound = tt;
}

-- The guest node that the invite makes of peer `a` at time 5.
abbrev pub guest_a : GuestNode
guest_a = record {
  number = 1;
  peer_id = peer_a;
  user_id = codes "u";
  display_name = codes "n";
  activated_at = 5_000_000_000;
  last_seen_at = none;
  revoked_at = none;
}

abbrev pub row_a : Option ℕ → GuestRecord
row_a revoked_at = record {
  id = 1;
  peer_id = peer_a;
  user_id = codes "u";
  display_name = codes "n";
  invite_id = 1;
  activated_at = 5;
  last_seen_at = none;
  revoked_at = revoked_at;
}

-- Peer `a` bound by invite 1, and invite 2 open.
abbrev pub bound_a : Option ℕ → Tables
bound_a revoked_at = record {
  invites =
      record invite { consumed_at = some 5 }
      ∷ record invite { id = 2; secret_hash = codes "ttt" }
      ∷ [];
  guests = row_a revoked_at ∷ [];
}

pub bound_a-IsSound : (revoked_at : Option ℕ) → IsSound (bound_a revoked_at)
unfolding IsConsumed text_eq
bound_a-IsSound revoked_at = record {
  ids = (refl, (refl, tt));
  hashes = (refl, (refl, tt));
  numbers = (refl, tt);
  peers = (refl, tt);
  single_use = (refl, tt);
  bound = (refl, tt);
}

-- An `Encodings` that shifts every byte beyond the delimiters and white space.
abbrev pub shift_all : List ℕ → Text
shift_all [] = []
shift_all (b ∷ bs) = (b + 0x4000) ∷ shift_all bs

abbrev pub unshift_all : Text → List ℕ
unshift_all [] = []
unshift_all (c ∷ cs) = (c - 0x4000) ∷ unshift_all cs

abbrev pub shifting : Encodings
shifting = record {
  hex_encode = shift_all;
  hex_decode = λ s. some (unshift_all s);
  base32_encode = shift_all;
  base32_decode = λ s. some (unshift_all s);
}

unshift-shift : (bs : List ℕ) → unshift_all (shift_all bs) ≡ bs
unshift-shift [] = refl
unshift-shift (b ∷ bs) = ground (arith, unshift-shift bs)

shift-is_plain : (bs : List ℕ) → all is_plain (shift_all bs) ≡ true
unfolding is_plain is_whitespace
shift-is_plain [] = refl
shift-is_plain (b ∷ bs) = ground (arith, shift-is_plain bs)

pub shifting-IsLawful : IsLawful shifting
shifting-IsLawful = record {
  hex_round = λ bs. ap some (unshift-shift bs);
  hex_plain = shift-is_plain;
  base32_round = λ bs. ap some (unshift-shift bs);
  base32_plain = shift-is_plain;
}
