-- ===== src/Kvs/Displaced.antt =====
-- The store of src/KVS.cpp after an entry was put into its cache map and another was displaced.
use kvs_cash_machine.ByteArray.{ByteArray}
use kvs_cash_machine.CacheMap.{CacheMap}
use kvs_cash_machine.CacheMap.Put.{Put}
use kvs_cash_machine.Common.{
  ℕ, ◌+◌, ◌≤◌, ◌<◌, ◌≡◌, ◌≢◌, ◌∙◌, ◌⊎◌, inl, inr, sym, ap, refl, false, Bool-cases, Option, some,
  length, length-set, ==_true, ==_false, arith,
}
use mathlib.Core.Path.{subst}
use native.Mathlib.Decide.{ℕ_discrete}
use kvs_cash_machine.Constants.{shard_number}
use kvs_cash_machine.Entry.{Entry}
use kvs_cash_machine.Key
use kvs_cash_machine.Key.{Key}
use kvs_cash_machine.Key.Laws.{eq_refl, eq_iff}
use kvs_cash_machine.Kvs.{Kvs, shard_at, push_operation}
use kvs_cash_machine.Kvs.Became.{IsTight, AreTight, Steady}
use kvs_cash_machine.Kvs.After.{at, after, at_same, at_same_pair, count-after, shards_hold}
use kvs_cash_machine.Kvs.Counter.{alive_dead, alive_same}
use kvs_cash_machine.Kvs.Kept.{Given, Kept-Represents}
use kvs_cash_machine.Kvs.Left.{Left, all-Kept}
use kvs_cash_machine.Kvs.Push.{Pushed, push_operation-Pushed}
use kvs_cash_machine.Outcome.{ok}
use kvs_cash_machine.Kvs.Stages.{Called}
use kvs_cash_machine.Kvs.Valid.{state_at, alive, Coherent, lookup, Represents, shard_index-lt}
use kvs_cash_machine.Ptr.{Ptr}
use kvs_cash_machine.Shard.{State, hash, get_shard_index}
use kvs_cash_machine.Shard.Sound.{raw, contents}
use kvs_cash_machine.Shard.Valid.{Holds}
use kvs_cash_machine.ShardBuilder.Step.{cached}
use kvs_cash_machine.StorageHashTable.Number.{one_if}
use kvs_cash_machine.StorageHashTable.{StorageHashTable}
use kvs_cash_machine.Value.{Value}

module _ (xxh3 : ByteArray → ℕ → ℕ) (f : Key → Option Value) (s : Kvs) (r : Represents xxh3 f s)
    (key : Key) (s' : State) (t' : StorageHashTable) (v' : ByteArray)
    (c : Called xxh3 f s r key s' t' v') (p : Ptr) (d : Entry) (m' : CacheMap)
    (put : Put (hash xxh3) s.cache_map (record { key = key; ptr = p }) (some d) m')
    (random : ℕ → ℕ) where
  abbrev i : ℕ
  i = get_shard_index xxh3 key

  abbrev j : ℕ
  j = get_shard_index xxh3 d.key

  abbrev m : CacheMap
  m = s.cache_map

  -- The store before `pushOperation`.
  abbrev pub s₁ : Kvs
  s₁ = after s i s' m' random

  abbrev pub tables₁ : ℕ → StorageHashTable
  tables₁ = at i t' r.tables

  abbrev pub files₁ : ℕ → ByteArray
  files₁ = at i v' r.files

  pub holds₁ : (x : ℕ) → x < shard_number → Holds xxh3 x (state_at s₁ x) (tables₁ x) (files₁ x)
  holds₁ =
      shards_hold xxh3 s r.tables r.files r.valid.number r.valid.holds i (shard_index-lt xxh3 key)
        s' t' v' c.holds c.framed m' random

  pub number₁ : length s₁.shards ≡ shard_number
  number₁ = length-set s.shards i s'.shard ∙ r.valid.number

  raw₁ : (q : Key) → Key.eq key q ≡ false → (x : ℕ) → raw (tables₁ x) q ≡ raw (r.tables x) q
  raw₁ q other = at_same (λ t. raw t q) i t' r.tables (c.pointers q other)

  contents₁ :
      (q : Key)
      → Key.eq key q ≡ false
      → (x : ℕ) → contents (tables₁ x) (files₁ x) q ≡ contents (r.tables x) (r.files x) q
  contents₁ q other =
      at_same_pair (λ t v. contents t v q) i t' v' r.tables r.files (c.reads q other)

  inside₁ : i < length s.shards
  inside₁ = rw r.valid.number (shard_index-lt xxh3 key)

  pub tight₁ :
      AreTight xxh3 f s r
      → IsTight s'.shard.alive_values_cnt t'
      → (x : ℕ) → x < shard_number
      → IsTight (shard_at s₁ x).alive_values_cnt (tables₁ x)
  tight₁ tight own x lt =
      subst (λ n. IsTight n (tables₁ x)) (sym (count-after s i s' m' random inside₁ x))
        (elim (ℕ_discrete i x) [
          | yes e ↦ rw (==_true e) own
          | no ne ↦ rw (==_false ne) (tight x lt)
        ])

  -- What the displaced entry was.
  pub displaced_byte : d.ptr.raw < 256
  displaced_byte = omega (arith, ap Ptr.raw put.stored.1, (r.valid.coherent d.key).byte)

  was_cached : cached m d.key ≡ d.ptr.raw
  was_cached = ap Ptr.raw put.stored.1

  module _ (unknown : 126 ≤ cached m key) (unused : cached m key < 128) where
    pub displaced_alive : d.ptr.raw < 126 → raw (tables₁ j) d.key ≡ d.ptr.raw + 128
    displaced_alive low =
        let other : Key.eq key d.key ≡ false = elim (Bool-cases (Key.eq key d.key)) [
          | inl same ↦
              let e : cached m key ≡ cached m d.key =
                ap (λ q. cached m q) ((eq_iff key d.key).0 same) in
              absurd (omega (arith, e, was_cached, low, unknown))
          | inr ne ↦ ne
        ] in
        raw₁ d.key other j
        ∙ (r.valid.coherent d.key).deleted (omega (arith, was_cached, low))
        ∙ omega (arith, was_cached)

    -- The displaced entry is pushed.
    pub pushed :
        AreTight xxh3 f s r
        → IsTight s'.shard.alive_values_cnt t'
        → (s'' : State) × (t'' : StorageHashTable) × (push_operation xxh3 d s₁
            ≡ (ok tt, after s₁ j s'' m' random))
          × Pushed xxh3 s₁ d (tables₁ j) (files₁ j) s'' t''
    pushed tight own_tight =
        let lt = shard_index-lt xxh3 d.key in
        push_operation-Pushed xxh3 s₁ d (tables₁ j) (files₁ j) number₁ (holds₁ j lt)
          (tight₁ tight own_tight j lt) (λ z. ground (arith, z, put.stored.0)) displaced_byte
          displaced_alive

    module _ (s'' : State) (t'' : StorageHashTable)
        (w : Pushed xxh3 s₁ d (tables₁ j) (files₁ j) s'' t'') where
      -- The store after `pushOperation`.
      abbrev pub s₂ : Kvs
      s₂ = after s₁ j s'' m' random

      abbrev pub tables₂ : ℕ → StorageHashTable
      tables₂ = at j t'' tables₁

      abbrev pub files₂ : ℕ → ByteArray
      files₂ = at j (files₁ j) files₁

      pub holds₂ : (x : ℕ) → x < shard_number → Holds xxh3 x (state_at s₂ x) (tables₂ x) (files₂ x)
      holds₂ =
          shards_hold xxh3 s₁ tables₁ files₁ number₁ holds₁ j (shard_index-lt xxh3 d.key) s'' t''
            (files₁ j) w.holds w.framed m' random

      pub number₂ : length s₂.shards ≡ shard_number
      number₂ = length-set s₁.shards j s''.shard ∙ number₁

      inside₂ : j < length s₁.shards
      inside₂ = rw number₁ (shard_index-lt xxh3 d.key)

      count₂ : (x : ℕ) → (shard_at s₂ x).alive_values_cnt ≡ (shard_at s₁ x).alive_values_cnt
      count₂ x =
          count-after s₁ j s'' m' random inside₂ x
          ∙ at_same (λ n. n) j s''.shard.alive_values_cnt (λ x. (shard_at s₁ x).alive_values_cnt)
              w.count x

      pub tight₂ :
          ((x : ℕ) → x < shard_number → IsTight (shard_at s₁ x).alive_values_cnt (tables₁ x))
          → (x : ℕ) → x < shard_number
          → IsTight (shard_at s₂ x).alive_values_cnt (tables₂ x)
      tight₂ tight x lt =
          let same = at_same StorageHashTable.used_size j t'' tables₁ w.used x in
          omega (arith, tight x lt, same, count₂ x)

      -- A key that is not the displaced one, or one that was not deleted.
      Spared : Key → Type 0
      Spared q = (Key.eq d.key q ≡ false) ⊎ ((d.key ≡ q) × (126 ≤ d.ptr.raw))

      raw₂ : (q : Key) → Spared q → (x : ℕ) → raw (tables₂ x) q ≡ raw (tables₁ x) q
      unfolding Spared
      raw₂ q (inl other) = at_same (λ t. raw t q) j t'' tables₁ (w.pointers q other)
      raw₂ q (inr (e, high)) =
          at_same (λ t. raw t q) j t'' tables₁
            (subst (λ q. raw t'' q ≡ raw (tables₁ j) q) e (w.high high))

      contents₂ :
          (q : Key)
          → Spared q
          → (x : ℕ) → contents (tables₂ x) (files₂ x) q ≡ contents (tables₁ x) (files₁ x) q
      unfolding Spared
      contents₂ q (inl other) =
          at_same_pair (λ t v. contents t v q) j t'' (files₁ j) tables₁ files₁ (w.reads q other)
      contents₂ q (inr (e, high)) =
          at_same_pair (λ t v. contents t v q) j t'' (files₁ j) tables₁ files₁
            (subst (λ q. contents t'' (files₁ j) q ≡ contents (tables₁ j) (files₁ j) q) e
              (w.value high))

      left : Left xxh3 f s r key d s₂ tables₂ files₂
      unfolding Spared
      left = record {
        cached_other = λ q other apart. ap Ptr.raw (put.reads q) ∙ rw (other, apart) refl;
        raw_other = λ q other apart x. raw₂ q (inl apart) x ∙ raw₁ q other x;
        contents_other = λ q other apart x. contents₂ q (inl apart) x ∙ contents₁ q other x;
        was_cached = was_cached;
        used = λ z. ground (arith, z, put.stored.0);
        gone = λ other. ap Ptr.raw (put.reads d.key) ∙ rw (other, eq_refl d.key) refl;
        dead_raw = λ other low. rw (==_true {a = j} refl) (w.low low);
        same_raw = λ other high. raw₂ d.key (inr (refl, high)) j ∙ raw₁ d.key other j;
        same_contents =
            λ other high. contents₂ d.key (inr (refl, high)) j ∙ contents₁ d.key other j;
        apart_raw = λ other x ne. rw (==_false ne) (raw₁ d.key other x);
      }

      -- The key's own entry is the new one.
      own-Spared : Spared key
      unfolding Spared
      own-Spared = elim (Bool-cases (Key.eq d.key key)) [
        | inl same ↦
            let e : cached m d.key ≡ cached m key =
              ap (λ q. cached m q) ((eq_iff d.key key).0 same) in
            inr ((eq_iff d.key key).0 same, omega (arith, e, was_cached, unknown))
        | inr apart ↦ inl apart
      ]

      own_raw : raw (tables₂ i) key ≡ raw t' key
      own_raw = raw₂ key own-Spared i ∙ rw (==_true {a = i} refl) refl

      own_contents : contents (tables₂ i) (files₂ i) key ≡ contents t' v' key
      own_contents = contents₂ key own-Spared i ∙ rw (==_true {a = i} refl) refl

      absent_elsewhere : (x : ℕ) → x < shard_number → i ≢ x → raw (r.tables x) key ≡ 127
      absent_elsewhere x lt apart = elim (ℕ_discrete (raw (r.tables x) key) 127) [
        | yes z ↦ z
        | no there ↦ absurd (apart (r.valid.own x key lt there))
      ]

      absent_after : (x : ℕ) → x < shard_number → i ≢ x → raw (tables₂ x) key ≡ 127
      absent_after x lt apart =
          raw₂ key own-Spared x ∙ rw (==_false apart) (absent_elsewhere x lt apart)

      pub self_cached : cached m' key ≡ p.raw
      self_cached = ap Ptr.raw (put.reads key) ∙ rw (eq_refl key) refl

      module _ (f' : Key → Option Value) (goes : Coherent p.raw (raw t' key))
          (reads : f' key ≡ lookup m' t' v' key)
          (counted : s'.shard.alive_values_cnt + one_if (alive m (r.tables i) key)
            ≡ (shard_at s i).alive_values_cnt + one_if (alive m' t' key)) where
        counts_here :
            (x : ℕ)
            → x < shard_number
            → (shard_at s₂ x).alive_values_cnt + one_if (alive m (r.tables x) key)
              ≡ (shard_at s x).alive_values_cnt + one_if (alive m' (tables₂ x) key)
        counts_here x lt = elim (ℕ_discrete i x) [
          | yes e ↦
              subst
                (λ x.
                  (shard_at s₂ x).alive_values_cnt + one_if (alive m (r.tables x) key)
                  ≡ (shard_at s x).alive_values_cnt + one_if (alive m' (tables₂ x) key))
                e
                (let same = alive_same m' m' t' (tables₂ i) key refl own_raw in
                  let count : (shard_at s₁ i).alive_values_cnt ≡ s'.shard.alive_values_cnt =
                    count-after s i s' m' random inside₁ i ∙ rw (==_true {a = i} refl) refl in
                  rw same (omega (arith, count₂ i, count, counted)))
          | no apart ↦
              let before =
                alive_dead m (r.tables x) key (omega (arith, absent_elsewhere x lt apart)) in
              let after' = alive_dead m' (tables₂ x) key (omega (arith, absent_after x lt apart)) in
              let count : (shard_at s₁ x).alive_values_cnt ≡ (shard_at s x).alive_values_cnt =
                count-after s i s' m' random inside₁ x ∙ rw (==_false apart) refl in
              rw (before, after') (omega (arith, count₂ x, count))
        ]

        pub own-Given : Given xxh3 f s r s₂ tables₂ files₂ f' key
        unfolding lookup
        own-Given = record {
          own = λ x lt there. elim (ℕ_discrete i x) [
            | yes e ↦ e
            | no apart ↦ absurd (there (absent_after x lt apart))
          ];
          coherent = rw (self_cached, own_raw) goes;
          reads = reads ∙ rw own_contents refl;
          counted = counts_here;
        }

        pub displaced-Steady :
            ((q : Key) → Key.eq key q ≡ false → f' q ≡ f q)
            → AreTight xxh3 f s r
            → IsTight s'.shard.alive_values_cnt t'
            → Steady xxh3 f' (length m.entries) s₂
        displaced-Steady same tight own_tight = record {
          represents =
              Kept-Represents xxh3 f s r s₂ tables₂ files₂ f' key put.valid number₂ holds₂ own-Given
                (all-Kept xxh3 f s r key d s₂ tables₂ files₂ left) same;
          tight = tight₂ (tight₁ tight own_tight);
          size = put.size;
        }
