-- ===== src/Map/Links.antt =====
-- src/value.c: what the chains of a map hold. Each bucket begins with the last item of its hash, and each item links to
-- the item of its hash before it.
use native.Mathlib.Numerals.{add-one}
use native.Mathlib.Nat.{mod-lt}
use prefix.Base.{
  ℕ, zero, suc, ◌+◌, ◌<◌, false, Option, none, some, List, [], ◌∷◌, ◌≡◌, refl, sym, ◌∙◌, ap, arith,
  ◌==◌, if◌then◌else◌, length, get_or, set, replicate, length-set, length-replicate,
  get_or-set_self, get_or-set_ne, get_or-replicate, Bool-cases, ==_iff, inl, inr,
}
use prefix.Map.Key.{map_hash_key}
use prefix.Map.Table.{MapEntry, Map, key_at, next_at, value_at, bucket_of, link, map_rehash}

-- The greatest index under `n` whose home is `b`.
unfoldable pub last_in : (ℕ → ℕ) → ℕ → ℕ → Option ℕ
last_in home zero b = none
last_in home (suc n) b = if home n == b then some n else last_in home n b

-- Item `i` in front of its chain.
pub set_head :
    {bc : ℕ} (home : ℕ → ℕ) (i : ℕ) (bs : List (Option ℕ)) (b0 : ℕ)
    → b0 < length bs
    → b0 ≡ home i
    → ((b : ℕ) → b < bc → get_or bs b none ≡ last_in home i b)
    → (b : ℕ) → b < bc
    → get_or (set bs b0 (some i)) b none ≡ last_in home (i + 1) b
unfolding last_in
set_head home i bs b0 inside here before b lt = rw add-one (elim (Bool-cases (home i == b)) [
  | inl same ↦ rw same (
      let at : b0 ≡ b = here ∙ (==_iff _ _).0 same in
      ap (λ k. get_or (set bs b0 (some i)) k none) (sym at)
      ∙ get_or-set_self bs b0 (some i) none inside)
  | inr other ↦ rw other (
      get_or-set_ne bs b0 b (some i) none (λ at. cc (other, (==_iff (home i) b).1 (sym here ∙ at)))
      ∙ before b lt)
])

module _ {V : Type 0} where
  abbrev pub home_of : ℕ → List (MapEntry V) → ℕ → ℕ
  home_of bucket_count items i = bucket_of bucket_count (key_at items i)

  -- The same items in their order, whatever their links.
  pub record SameItems (es fs : List (MapEntry V)) : Type 0 where
    pub same_length : length fs ≡ length es
    pub same_key : (i : ℕ) → key_at fs i ≡ key_at es i
    pub same_value : (i : ℕ) → value_at fs i ≡ value_at es i

  -- The chains of `buckets` and `items`, of which the first `n` are linked.
  pub record IsLinked (bucket_count n : ℕ) (items : List (MapEntry V)) (buckets : List (Option ℕ))
      : Type 0 where
    pub heads :
        (b : ℕ)
        → b < bucket_count
        → get_or buckets b none ≡ last_in (home_of bucket_count items) n b
    pub nexts :
        (i : ℕ)
        → i < n
        → next_at items i ≡ last_in (home_of bucket_count items) i (home_of bucket_count items i)

  link-SameItems :
      (bc i : ℕ) (es : List (MapEntry V)) (bs : List (Option ℕ)) → SameItems es (link bc i es bs).0
  unfolding link key_at value_at
  link-SameItems bc i [] bs = record {
    same_length = refl;
    same_key = λ _. refl;
    same_value = λ _. refl;
  }
  link-SameItems bc i (e ∷ es) bs =
      let ih = link-SameItems bc (i + 1) es (set bs (bucket_of bc e.key) (some i)) in
      record {
        same_length = ap suc ih.same_length;
        same_key = elim [ zero ↦ refl | suc j ↦ ih.same_key j ];
        same_value = elim [ zero ↦ refl | suc j ↦ ih.same_value j ];
      }

  link-length :
      (bc i : ℕ) (es : List (MapEntry V)) (bs : List (Option ℕ))
      → length (link bc i es bs).1 ≡ length bs
  unfolding link
  link-length bc i [] bs = refl
  link-length bc i (e ∷ es) bs = link-length bc (i + 1) es _ ∙ length-set bs _ _

  -- Linking items whose homes are those of `home` from `i` on, behind `i` linked ones.
  link-heads :
      (home : ℕ → ℕ) (bc : ℕ)
      → 0 < bc
      → (i : ℕ) (es : List (MapEntry V)) (bs : List (Option ℕ)) → length bs ≡ bc
      → ((j : ℕ) → j < length es → home_of bc es j ≡ home (i + j))
      → ((b : ℕ) → b < bc → get_or bs b none ≡ last_in home i b)
      → ((b : ℕ) → b < bc → get_or (link bc i es bs).1 b none ≡ last_in home (i + length es) b)
        × ((j : ℕ)
            → j < length es
            → next_at (link bc i es bs).0 j ≡ last_in home (i + j) (home (i + j)))
  unfolding link key_at next_at last_in
  link-heads home bc pos i [] bs len homes before = (
    λ b lt. rw (let e : i + 0 ≡ i = omega arith in e) (before b lt),
    λ j lt. absurd (omega arith),
  )
  link-heads home bc pos i (e ∷ es) bs len homes before =
      let b0 = bucket_of bc e.key in
      let here : b0 ≡ home i = homes 0 (omega arith) ∙ ap home (omega arith) in
      let inside : b0 < bc = mod-lt (map_hash_key e.key) pos in
      let shift : (j : ℕ) → i + suc j ≡ i + 1 + j = λ j. omega arith in
      let (heads, nexts) =
        link-heads home bc pos (i + 1) es (set bs b0 (some i)) (length-set bs b0 (some i) ∙ len)
          (λ j lt. homes (suc j) (omega arith) ∙ ap home (shift j))
          (set_head home i bs b0 (omega arith) here before) in
      (
        λ b lt. heads b lt ∙ ap (λ n. last_in home n b) (sym (shift (length es))),
        elim [
          | zero ↦ λ _.
              before b0 inside
              ∙ ap (last_in home i) here
              ∙ ap (λ n. last_in home n (home n)) (let e0 : i ≡ i + 0 = omega arith in e0)
          | suc j ↦ λ lt. nexts j (omega arith) ∙ ap (λ n. last_in home n (home n)) (sym (shift j))
        ],
      )

  pub rehash-IsLinked :
      (m : Map V) (n : ℕ)
      → 0 < n
      → (length (map_rehash m n).buckets ≡ n)
        × IsLinked n (length m.items) (map_rehash m n).items (map_rehash m n).buckets
        × SameItems m.items (map_rehash m n).items
  unfolding map_rehash last_in
  rehash-IsLinked m n pos = rw (let e : (n == 0) ≡ false = ground arith in e) (
      let fresh = replicate n none in
      let linked = (link n 0 m.items fresh).0 in
      let same = link-SameItems n 0 m.items fresh in
      let home = home_of n linked in
      let (heads, nexts) =
        link-heads home n pos 0 m.items fresh (length-replicate n none)
          (λ j _.
            ap (bucket_of n) (sym (same.same_key j))
            ∙ ap home (let e : j ≡ 0 + j = omega arith in e))
          (λ b _. get_or-replicate n b none) in
      let zero_sum : (j : ℕ) → 0 + j ≡ j = λ j. omega arith in
      (
        link-length n 0 m.items fresh ∙ length-replicate n none,
        record {
          heads = λ b lt. heads b lt ∙ ap (λ k. last_in home k b) (zero_sum _);
          nexts = λ i lt. nexts i lt ∙ ap (λ k. last_in home k (home k)) (zero_sum i);
        },
        same,
      ))
