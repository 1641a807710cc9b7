-- ===== src/Sessions/Find.antt =====
-- What the search loops find.
use lane_cove_tunnel.Prelude.{
  get_or-append_default, ℕ, zero, suc, ◌≤◌, ◌<◌, ◌≡◌, refl, Bool, true, false, none, some, List, [],
  ◌∷◌, ◌++◌, length, get_or, set, get_or-set_self, get_or-set_ne, ◌≢◌, arith,
}
use lane_cove_tunnel.Node.{Session, zero_session}
use lane_cove_tunnel.Sessions.{find_index, slot}

module _ {ℓ} {A : Type ℓ} (test : A → Bool) (d : A) where
  -- The test holds at the hit.
  pub find_index-hit :
      (xs : List A) (i : ℕ)
      → find_index test xs ≡ some i
      → (i < length xs) × (test (get_or xs i d) ≡ true)
  unfolding find_index
  find_index-hit [] i h = cc
  find_index-hit (x ∷ xs) zero h = ground arith
  find_index-hit (x ∷ xs) (suc i) h = ground (arith, find_index-hit xs i)

  -- And nowhere before.
  pub find_index-before :
      (xs : List A) (i j : ℕ) → find_index test xs ≡ some i → j < i → test (get_or xs j d) ≡ false
  unfolding find_index
  find_index-before [] i j h lt = cc
  find_index-before (x ∷ xs) zero j h lt = absurd (omega arith)
  find_index-before (x ∷ xs) (suc i) zero h lt = ground arith
  find_index-before (x ∷ xs) (suc i) (suc j) h lt = ground (arith, find_index-before xs i j)

  pub find_index-none :
      (xs : List A) (j : ℕ)
      → find_index test xs ≡ none
      → j < length xs
      → test (get_or xs j d) ≡ false
  unfolding find_index
  find_index-none [] j h lt = absurd (omega arith)
  find_index-none (x ∷ xs) zero h lt = ground arith
  find_index-none (x ∷ xs) (suc j) h lt = ground (arith, find_index-none xs j)

module _ {ℓ} {A : Type ℓ} (test : A → Bool) where
  -- The first entry that passes the test is found where it was written.
  pub find_index-set_hit :
      (xs : List A) (i : ℕ) (v : A)
      → find_index test xs ≡ none
      → i < length xs
      → test v ≡ true
      → find_index test (set xs i v) ≡ some i
  unfolding find_index
  find_index-set_hit [] i v h lt hit = absurd (omega arith)
  find_index-set_hit (x ∷ xs) zero v h lt hit = rw hit
  find_index-set_hit (x ∷ xs) (suc i) v h lt hit = ground (arith, find_index-set_hit xs i v)

  pub find_index-append_miss :
      (xs : List A) (v : A)
      → find_index test xs ≡ none
      → test v ≡ false
      → find_index test (xs ++ v ∷ []) ≡ none
  unfolding find_index
  find_index-append_miss [] v h miss = rw miss
  find_index-append_miss (x ∷ xs) v h miss = ground (arith, find_index-append_miss xs v)

module _ {ℓ} {A : Type ℓ} (d : A) where
  -- A read beyond the end gives the default, so the default may as well stand there.
  pub get_or-beyond : (xs : List A) (i : ℕ) → length xs ≤ i → get_or xs i d ≡ d
  get_or-beyond [] i h = refl
  get_or-beyond (x ∷ xs) zero h = absurd (omega arith)
  get_or-beyond (x ∷ xs) (suc i) h = get_or-beyond xs i (omega arith)

-- The same for the session table, whose default is an inactive slot.
module _ (test : Session → Bool) where
  pub find_slot-hit :
      (sessions : List Session) (i : ℕ)
      → find_index test sessions ≡ some i
      → (i < length sessions) × (test (slot sessions i) ≡ true)
  unfolding slot
  find_slot-hit sessions i h = find_index-hit test zero_session sessions i h

  pub find_slot-none :
      (sessions : List Session) (j : ℕ)
      → find_index test sessions ≡ none
      → j < length sessions
      → test (slot sessions j) ≡ false
  unfolding slot
  find_slot-none sessions j h lt = find_index-none test zero_session sessions j h lt

pub slot-beyond :
    (sessions : List Session) (i : ℕ) → length sessions ≤ i → (slot sessions i).active ≡ false
unfolding slot zero_session
slot-beyond sessions i h = rw (get_or-beyond zero_session sessions i h)

pub slot-append_zero :
    (sessions : List Session) (i : ℕ) → slot (sessions ++ zero_session ∷ []) i ≡ slot sessions i
unfolding slot
slot-append_zero sessions i = get_or-append_default sessions i zero_session

pub slot-set_self :
    (sessions : List Session) (i : ℕ) (s : Session)
    → i < length sessions
    → slot (set sessions i s) i ≡ s
unfolding slot
slot-set_self sessions i s h = get_or-set_self sessions i s zero_session h

pub slot-set_ne :
    (sessions : List Session) (i j : ℕ) (s : Session)
    → i ≢ j
    → slot (set sessions i s) j ≡ slot sessions j
unfolding slot
slot-set_ne sessions i j s ne = get_or-set_ne sessions i j s zero_session ne
