-- ===== src/Heap/Buckets.antt =====
-- Which bucket of kheap.c a size falls in.
use capaz_os_kernel.Common.{
  ℕ, zero, suc, ◌+◌, ◌≤◌, ◌<◌, ◌≡◌, sym, arith, Bool-cases, none, some, leb, inl, inr, ==_iff, ◌==◌,
}
use capaz_os_kernel.Heap.{bucket_size, bucket_from, bucket_for_size, num_buckets}

bucket_from-some :
    (n i size k : ℕ)
    → bucket_from n i size ≡ some k
    → (k < i + n) × (size ≤ bucket_size k) × ((j : ℕ) → i ≤ j → j < k → bucket_size j < size)
unfolding bucket_from
bucket_from-some zero i size k q = absurd (no_value q)
  where
    no_value : none ≡ some k → ⊥
    no_value e = ground arith
bucket_from-some (suc n) i size k q = elim (Bool-cases (leb size (bucket_size i))) [
  | inl fits ↦
      let here : i ≡ k = ground arith in
      (omega arith, rw (sym here) (ground arith), λ j ge lt. absurd (omega arith))
  | inr small ↦
      let (a, b, c) = bucket_from-some n (suc i) size k (ground arith) in
      (
        omega arith,
        b,
        λ j ge lt. elim (Bool-cases (i == j)) [
          | inl first ↦ rw (sym ((==_iff i j).0 first)) (ground arith)
          | inr later ↦ c j (ground arith) lt
        ],
      )
]

bucket_from-none :
    (n i size k : ℕ) → bucket_from n i size ≡ none → i ≤ k → k < i + n → bucket_size k < size
unfolding bucket_from
bucket_from-none zero i size k q ge lt = absurd (omega arith)
bucket_from-none (suc n) i size k q ge lt = elim (Bool-cases (leb size (bucket_size i))) [
  | inl fits ↦ absurd (ground arith)
  | inr small ↦ elim (Bool-cases (i == k)) [
    | inl first ↦ rw (sym ((==_iff i k).0 first)) (ground arith)
    | inr later ↦ bucket_from-none n (suc i) size k (ground arith) (ground arith) (omega arith)
  ]
]

-- A small size falls in the bucket of the smallest block that has room for it.
pub bucket_lem :
    (size i : ℕ)
    → bucket_for_size size ≡ some i
    → (i < num_buckets) × (size ≤ bucket_size i) × ((j : ℕ) → j < i → bucket_size j < size)
unfolding bucket_for_size
bucket_lem size i q =
    let (a, b, c) = bucket_from-some 8 0 size i q in (omega arith, b, λ j. c j (omega arith))

-- A size that no bucket has room for is above the largest.
pub no_bucket : (size : ℕ) → bucket_for_size size ≡ none → 2048 < size
unfolding bucket_for_size
no_bucket size q = bucket_from-none 8 0 size 7 q (omega arith) (omega arith)
