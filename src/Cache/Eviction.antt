-- ===== src/Cache/Eviction.antt =====
-- internal/utils/cache/ttl_cache.go: what a shard holds after an eviction.
use grid_kv.Base.{
  ℕ, ◌+◌, ◌≤◌, ◌<◌, ◌≡◌, refl, sym, ◌∙◌, Bool, true, false, ◌||◌, none, some, [], ◌∷◌, ◌++◌, Str,
  str_eq, str_eq_refl, Map, load, delete, load-delete, Distinct, delete-Distinct, length-delete,
  length, ltb, leb, if◌then◌else◌, arith, if_cases, Bool-cases, inl, inr, dec_lt, length-append,
}
use mathlib.Core.List.{reverse, reverse-cons}
use grid_kv.Cache.Defs.{
  Entry, CacheShard, find_victim, choose_victim, evict, room_for, with_items, to_front,
}

module _ {V : Type 0} where
  -- The key has an entry.
  has : Str → Map (Entry V) → Bool
  has k [] = false
  has k ((j, e) ∷ m) = str_eq j k || has k m

  has-append : (k : Str) (m m' : Map (Entry V)) → has k (m ++ m') ≡ has k m || has k m'
  unfolding has
  has-append k [] m' = refl
  has-append k ((j, e) ∷ m) m' = ground (arith, has-append k m m')

  has-reverse : (k : Str) (m : Map (Entry V)) → has k (reverse m) ≡ has k m
  unfolding has
  has-reverse k [] = refl
  has-reverse k ((j, e) ∷ m) =
      rw (reverse-cons (j, e) m, has-append k (reverse m) ((j, e) ∷ []))
        (ground (arith, has-reverse k m))

  has-load : (k : Str) (m : Map (Entry V)) → has k m ≡ true → (e : Entry V) × (load k m ≡ some e)
  unfolding has load
  has-load k [] h = cc
  has-load k ((j, e) ∷ m) h = elim (Bool-cases (str_eq j k)) [
    | inl same ↦ (e, rw (same, load) refl)
    | inr other ↦ let (x, found) = has-load k m (rw other at h) in (x, rw (other, load) found)
  ]

  has_head : (k : Str) (e : Entry V) (m : Map (Entry V)) → has k ((k, e) ∷ m) ≡ true
  unfolding has
  has_head k e m = rw (str_eq_refl k) refl

  has_tail :
      (k j : Str) (e : Entry V) (m : Map (Entry V)) → has k m ≡ true → has k ((j, e) ∷ m) ≡ true
  unfolding has
  has_tail k j e m h = ground arith

  length-delete_le : (k : Str) (m : Map (Entry V)) → length (delete k m) ≤ length m
  unfolding delete
  length-delete_le k [] = omega arith
  length-delete_le k ((j, e) ∷ m) = ground (arith, length-delete_le k m)

  find_victim-has :
      (freq : Str → ℕ) (n : ℕ) (oldest current : Str) (rest all : Map (Entry V))
      → has oldest all ≡ true
      → has current all ≡ true
      → ((k : Str) → has k rest ≡ true → has k all ≡ true)
      → has (find_victim freq n oldest current rest) all ≡ true
  unfolding find_victim
  find_victim-has freq n oldest current [] all old cur sub = ground arith
  find_victim-has freq n oldest current ((key, e) ∷ []) all old cur sub = ground arith
  find_victim-has freq n oldest current ((key, e) ∷ (k, f) ∷ rest) all old cur sub =
      let more =
        find_victim-has freq n oldest key ((k, f) ∷ rest) all old
          (sub key (has_head key e ((k, f) ∷ rest)))
          (λ j h. sub j (has_tail j key e ((k, f) ∷ rest) h)) in
      ground arith

  choose_victim-has :
      (freq : Str → ℕ) (key : Str) (items : Map (Entry V))
      → 0 < length items
      → (k : Str) × (choose_victim freq key items ≡ some k) × (has k items ≡ true)
  unfolding choose_victim
  choose_victim-has freq key [] h = absurd (omega arith)
  choose_victim-has freq key ((oldest, e) ∷ rest) h = (
    if ltb (freq key) (freq oldest) then find_victim freq (freq key) oldest oldest rest else oldest,
    refl,
    if_cases (λ k. has k ((oldest, e) ∷ rest) ≡ true) (ltb (freq key) (freq oldest)) _ _
        (λ _.
          find_victim-has freq (freq key) oldest oldest rest ((oldest, e) ∷ rest)
            (has_head oldest e rest) (has_head oldest e rest) (λ j p. has_tail j oldest e rest p))
        (λ _. has_head oldest e rest),
  )

  length-reverse : (m : Map (Entry V)) → length (reverse m) ≡ length m
  length-reverse [] = refl
  length-reverse (x ∷ m) =
      rw (reverse-cons x m) (omega (arith, length-append (reverse m) (x ∷ []), length-reverse m))

  -- What a shard is to be.
  pub record IsShard (shard : CacheShard V) : Type 0 where
    pub room : 0 < shard.max_size
    pub bounded : length shard.items ≤ shard.max_size
    pub distinct : Distinct shard.items

  -- One entry leaves, so that the new one fits.
  room_for_full :
      (freq : Str → ℕ) (key : Str) (shard : CacheShard V)
      → IsShard shard
      → shard.max_size ≤ length shard.items
      → (k : Str) × (room_for freq key shard ≡ delete k shard.items)
        × (length (delete k shard.items) + 1 ≡ length shard.items)
  unfolding room_for
  room_for_full freq key shard ok full =
      let (k, chosen, there) =
        choose_victim-has freq key (reverse shard.items)
          (omega (arith, length-reverse shard.items, ok.room)) in
      let (e, found) = has-load k shard.items (sym (has-reverse k shard.items) ∙ there) in
      let room : ltb 0 shard.max_size ≡ true = ground (arith, ok.room) in
      let test : leb shard.max_size (length shard.items) ≡ true = ground arith in
      (k, rw (room, test, chosen, evict) refl, length-delete k e shard.items ok.distinct found)

  room_for_free :
      (freq : Str → ℕ) (key : Str) (shard : CacheShard V)
      → length shard.items < shard.max_size
      → room_for freq key shard ≡ shard.items
  unfolding room_for
  room_for_free freq key shard free = ground arith

  -- An eviction forgets entries and changes none.
  pub load-room_for :
      (freq : Str → ℕ) (key j : Str) (shard : CacheShard V) (e : Entry V)
      → IsShard shard
      → load j (room_for freq key shard) ≡ some e
      → load j shard.items ≡ some e
  load-room_for freq key j shard e ok h = elim (dec_lt (length shard.items) shard.max_size) [
    | yes free ↦ rw (room_for_free freq key shard free) at h
    | no full ↦
        let (k, is, _) = room_for_full freq key shard ok (omega arith) in
        let h' : load j (delete k shard.items) ≡ some e = rw is at h in
        ground (arith, load-delete k j shard.items)
  ]

  pub room_for-IsShard :
      (freq : Str → ℕ) (key : Str) (shard : CacheShard V) (e : Entry V)
      → IsShard shard
      → load key shard.items ≡ none
      → IsShard (with_items ((key, e) ∷ room_for freq key shard) shard)
  room_for-IsShard freq key shard e ok absent = elim (dec_lt (length shard.items) shard.max_size) [
    | yes free ↦
        rw (room_for_free freq key shard free)
          (record { room = ok.room; bounded = omega arith; distinct = (absent, ok.distinct) })
    | no full ↦
        let (k, is, len) = room_for_full freq key shard ok (omega arith) in
        rw is (record {
          room = ok.room;
          bounded = omega (arith, ok.bounded);
          distinct = (
            ground (arith, load-delete k key shard.items),
            delete-Distinct k shard.items ok.distinct,
          );
        })
  ]

  pub delete-IsShard :
      (key : Str) (shard : CacheShard V)
      → IsShard shard
      → IsShard (with_items (delete key shard.items) shard)
  delete-IsShard key shard ok = record {
    room = ok.room;
    bounded = omega (arith, ok.bounded, length-delete_le key shard.items);
    distinct = delete-Distinct key shard.items ok.distinct;
  }

  pub to_front-IsShard :
      (key : Str) (e old : Entry V) (shard : CacheShard V)
      → IsShard shard
      → load key shard.items ≡ some old
      → IsShard (with_items (to_front key e shard.items) shard)
  to_front-IsShard key e old shard ok found = record {
    room = ok.room;
    bounded = omega (arith, ok.bounded, length-delete key old shard.items ok.distinct found);
    distinct = (
      ground (arith, load-delete key key shard.items, str_eq_refl key),
      delete-Distinct key shard.items ok.distinct,
    );
  }
