-- ===== src/Kvs/Ready.antt =====
-- Sequences of calls of the methods of src/KVS.cpp on a store from which nothing was displaced.
use kvs_cash_machine.ByteArray.{ByteArray}
use kvs_cash_machine.Common.{
  true, ℕ, suc, ◌+◌, ◌-◌, ◌*◌, ◌≤◌, ◌<◌, ◌≡◌, ◌≢◌, ◌⊎◌, inl, inr, refl, true, false, List, [], ◌∷◌,
  is_some, length, ==_true, arith,
}
use kvs_cash_machine.Constants.{shard_number}
use kvs_cash_machine.Key
use kvs_cash_machine.Key.{Key}
use kvs_cash_machine.Kvs.{Kvs, shard_at}
use kvs_cash_machine.Kvs.Add.{add-Represents, add-Steady}
use kvs_cash_machine.Kvs.Became.{Became, IsCovered, AreTight, Steady}
use kvs_cash_machine.Kvs.Get.{get-Represents, get-Steady}
use kvs_cash_machine.Kvs.Live.{lives_in, counter-lives_in, counter_change}
use kvs_cash_machine.Kvs.Remove.{remove-Represents}
use kvs_cash_machine.Kvs.Room.{HasRoom}
use kvs_cash_machine.Kvs.Valid.{Represents, shard_index-lt}
use kvs_cash_machine.Outcome.{ok}
use kvs_cash_machine.Shard.{get_shard_index}
use kvs_cash_machine.Shard.Sound.{raw}
use kvs_cash_machine.StorageHashTable.Number.{one_if}
use mathlib.Core.Bool.{false≢true}
use kvs_cash_machine.Kvs.Due.{covered-NoneForgotten}
use kvs_cash_machine.Kvs.Session.{
  Operation, get_value, add_value, remove_value, Model, perform, run, step, answer, final, answers,
  IsAdmitted, AreAdmitted, removes_nothing,
}

module _ (xxh3 : ByteArray → ℕ → ℕ) where
  -- The store has the model's values, no rebuild is due, and its counters are the model's.
  pub record Calm (m : Model) (s : Kvs) : Type 0 where
    pub represents : Represents xxh3 m.values s
    pub tight : AreTight xxh3 m.values s represents
    pub counts : (i : ℕ) → i < shard_number → (shard_at s i).alive_values_cnt ≡ m.live i

  -- Besides, nothing was displaced from the cache map, and it has room for `n` more operations.
  pub record Ready (n : ℕ) (m : Model) (s : Kvs) : Type 0 where
    pub calm : Calm m s
    pub open calm use *
    pub covered : IsCovered xxh3 m.values s represents
    pub room : 3 * (s.cache_map.used_size + n) ≤ 2 * length s.cache_map.entries + 3

  pub Ready-fewer : (n n' : ℕ) (m : Model) (s : Kvs) → n' ≤ n → Ready n m s → Ready n' m s
  Ready-fewer n n' m s le ready = record {
    calm = ready.calm;
    covered = ready.covered;
    room = omega (arith, ready.room, le);
  }

  module _ (m : Model) (s : Kvs) (calm : Calm m s) (k : Key) where
    abbrev shard : ℕ
    shard = get_shard_index xxh3 k

    -- A change at one key, and the model's.
    changed_counts :
        (m' : Model) (s' : Kvs) (r' : Represents xxh3 m'.values s')
        → ((q : Key) → Key.eq k q ≡ false → m'.values q ≡ m.values q)
        → ((j : ℕ)
            → m'.live j
              ≡ m.live j
                + one_if (lives_in xxh3 m'.values j k)
                - one_if (lives_in xxh3 m.values j k))
        → (j : ℕ) → j < shard_number
        → (shard_at s' j).alive_values_cnt ≡ m'.live j
    changed_counts m' s' r' others live j lt =
        let change = counter_change xxh3 m.values m'.values s s' calm.represents r' k others j lt in
        omega (arith, change, calm.counts j lt, live j)

    next-Calm :
        (m' : Model) (n : ℕ) (s' : Kvs)
        → Steady xxh3 m'.values n s'
        → ((q : Key) → Key.eq k q ≡ false → m'.values q ≡ m.values q)
        → ((j : ℕ)
            → m'.live j
              ≡ m.live j
                + one_if (lives_in xxh3 m'.values j k)
                - one_if (lives_in xxh3 m.values j k))
        → Calm m' s'
    next-Calm m' n s' steady others live = record {
      represents = steady.represents;
      tight = steady.tight;
      counts = changed_counts m' s' steady.represents others live;
    }

    space :
        (is_some (m.values k) ≡ true) ⊎ (m.live shard < 23)
        → (raw (calm.represents.tables shard) k ≢ 127)
          ⊎ ((calm.represents.tables shard).used_size < 45)
    space (inl there) =
        let (_, stored) =
          counter-lives_in xxh3 m.values s calm.represents shard (shard_index-lt xxh3 k) in
        inl (λ z. omega (arith, z, stored k (rw (==_true {a = shard} refl) there)))
    space (inr few) =
        let lt = shard_index-lt xxh3 k in
        inr (omega (arith, few, calm.counts shard lt, calm.tight shard lt))

  module _ (n : ℕ) (m : Model) (s : Kvs) (ready : Ready (suc n) m s) where
    has_room : HasRoom s.cache_map
    has_room = omega (arith, ready.room)

    module _ (k : Key) where
      abbrev i : ℕ
      i = get_shard_index xxh3 k

      next-Ready :
          (m' : Model) (s' : Kvs) (r' : Represents xxh3 m'.values s') (grew : ℕ)
          → Became xxh3 m.values m'.values s s' ready.represents r' i grew
          → ((q : Key) → Key.eq k q ≡ false → m'.values q ≡ m.values q)
          → ((j : ℕ)
              → m'.live j
                ≡ m.live j
                  + one_if (lives_in xxh3 m'.values j k)
                  - one_if (lives_in xxh3 m.values j k))
          → Ready n m' s'
      next-Ready m' s' r' grew became others live = record {
        calm = record {
          represents = r';
          tight = became.tight ready.covered ready.tight;
          counts = changed_counts m s ready.calm k m' s' r' others live;
        };
        covered = became.covered ready.covered;
        room = omega (arith, ready.room, became.size, became.used);
      }

    perform-Ready :
        (o : Operation)
        → IsAdmitted xxh3 o m
        → (s' : Kvs) × (perform xxh3 o s ≡ (ok (answer xxh3 o m), s')) × Ready n (step xxh3 o m) s'
    unfolding perform
    perform-Ready (get_value k) admitted =
        let (s', eq, r', became) = get-Represents xxh3 m.values s ready.represents k has_room in
        (s', eq, next-Ready k m s' r' 0 became (λ q _. refl) (λ j. omega arith))
    perform-Ready (add_value k v) (whole, free) =
        let (s', eq, r', became) =
          add-Represents xxh3 m.values s ready.represents k v whole has_room
            (space m s ready.calm k free) in
        (s', rw eq refl, next-Ready k _ s' r' 1 became (λ q other. rw other refl) (λ j. refl))
    perform-Ready (remove_value k) admitted =
        let (s', eq, r', became) = remove-Represents xxh3 m.values s ready.represents k has_room (
          covered-NoneForgotten xxh3 m.values s ready.represents ready.covered (i k)
            (shard_index-lt xxh3 k)) in
        (s', rw eq refl, next-Ready k _ s' r' 0 became (λ q other. rw other refl) (λ j. refl))

  -- A store that is ready for as many operations answers them as the map does, without an error.
  pub run-Ready :
      (os : List Operation) (n : ℕ) (m : Model) (s : Kvs)
      → Ready (length os + n) m s
      → AreAdmitted xxh3 os m
      → (s' : Kvs) × (run xxh3 os s ≡ (ok (answers xxh3 os m), s')) × Ready n (final xxh3 os m) s'
  unfolding run
  run-Ready [] n m s ready admitted = (s, refl, Ready-fewer (0 + n) n m s (omega arith) ready)
  run-Ready (o ∷ os) n m s ready (here, later) =
      let (s₁, eq, ready₁) =
        perform-Ready (length os + n) m s
          (Ready-fewer (suc (length os) + n) (suc (length os + n)) m s (omega arith) ready) o
          here in
      let (s', rest, ready') = run-Ready os n (step xxh3 o m) s₁ ready₁ later in
      (s', rw (eq, rest) refl, ready')

  -- A valid store in which no rebuild is due in any shard answers any number of calls of `get` and `add`, in any order, as
  -- a map from keys to values does, none of them with an error, whatever its cache map has and however
  -- full it is. Each value that is added has VALUE_SIZE bytes, and its key has a value already or less
  -- than 23 keys of its shard have one. In the end the store is valid and has the values of the map, no
  -- rebuild is due, and the counter of each shard is the number of its keys with a value in the map.
  pub run-Calm :
      (os : List Operation) (m : Model) (s : Kvs)
      → removes_nothing os ≡ true
      → Calm m s
      → AreAdmitted xxh3 os m
      → (s' : Kvs) × (run xxh3 os s ≡ (ok (answers xxh3 os m), s')) × Calm (final xxh3 os m) s'
  unfolding run perform
  run-Calm [] m s keeps calm admitted = (s, refl, calm)
  run-Calm (get_value k ∷ os) m s keeps calm (here, later) =
      let (s₁, eq, steady) = get-Steady xxh3 m.values s calm.represents k calm.tight in
      let calm₁ =
        next-Calm m s calm k m (length s.cache_map.entries) s₁ steady (λ q _. refl)
          (λ j. omega arith) in
      let (s', rest, calm') = run-Calm os m s₁ keeps calm₁ later in (s', rw (eq, rest) refl, calm')
  run-Calm (add_value k v ∷ os) m s keeps calm ((whole, free), later) =
      let (s₁, eq, steady) =
        add-Steady xxh3 m.values s calm.represents k v whole calm.tight (space m s calm k free) in
      let m₁ = step xxh3 (add_value k v) m in
      let calm₁ =
        next-Calm m s calm k m₁ (length s.cache_map.entries) s₁ steady (λ q other. rw other refl)
          (λ j. refl) in
      let (s', rest, calm') = run-Calm os m₁ s₁ keeps calm₁ later in (s', rw (eq, rest) refl, calm')
  run-Calm (remove_value k ∷ os) m s keeps calm admitted = absurd (false≢true keeps)
