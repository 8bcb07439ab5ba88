-- ===== src/Coordinator/Layout.antt =====
-- GetLayout of server/coordinator/server.go serves a layout in shards.
use native.Mathlib.Nat.{mod-eq_of_lt, mul-div-le, mul-le-mul_right}
use talek.Base.{
  ℕ, zero, suc, ◌+◌, ◌*◌, ◌/◌, ◌^◌, ◌≤◌, ◌<◌, ◌≡◌, sym, ap, ◌∙◌, none, List, [], ◌++◌, arith,
  take-add, length, take, drop, slice?-eq-some, drop-drop, Outcome, ◌>>=◌, ok, ltb-eq-false,
  ==_refl,
}
use talek.Coordinator.{Server, u64, get_layout}

-- The words of the shards from `i` on, `left` of `num_shards`, one after the other.
unfoldable pub fetch : Server → ℕ → ℕ → ℕ → Outcome (List ℕ)
fetch s num_shards zero i = ok []
fetch s num_shards (suc left) i =
    get_layout s (record { snapshot_id = s.snapshot_count; shard_id = i; num_shards = num_shards })
    >>= λ r. fetch s num_shards left (i + 1) >>= λ rest. ok (r.words ++ rest)

module _ (s : Server) (n : ℕ) (some_shards : 0 < n) (short : length s.last_layout < 2 ^ 64) where
  -- The shards fit in the layout.
  shard_inside :
      (i : ℕ)
      → i < n
      → i * (length s.last_layout / n) + length s.last_layout / n ≤ length s.last_layout
  shard_inside i h =
      let size = length s.last_layout / n in
      let all_fit : n * size ≤ length s.last_layout = mul-div-le (length s.last_layout) n in
      let below : suc i * size ≤ n * size = mul-le-mul_right size h in grind arith

  -- The answer to one shard is its part of the layout.
  pub get_layout-shard :
      (i : ℕ)
      → i < n
      → get_layout s (record { snapshot_id = s.snapshot_count; shard_id = i; num_shards = n })
        ≡ ok (record {
          error = none;
          snapshot_id = s.snapshot_count;
          words =
              take (length s.last_layout / n) (drop (i * (length s.last_layout / n)) s.last_layout);
        })
  unfolding get_layout
  get_layout-shard i h =
      let size = length s.last_layout / n in
      let inside = shard_inside i h in
      rw (
        ==_refl s.snapshot_count,
        ltb-eq-false n 1 some_shards,
        first,
        last,
        ltb-eq-false (length s.last_layout) (i * size + size) inside,
        slice?-eq-some s.last_layout (i * size) size inside,
      )
    where
      first : u64 (i * (length s.last_layout / n)) ≡ i * (length s.last_layout / n)
      first = mod-eq_of_lt (omega (arith, shard_inside i h))

      last :
          u64 (i * (length s.last_layout / n) + length s.last_layout / n)
          ≡ i * (length s.last_layout / n) + length s.last_layout / n
      last = mod-eq_of_lt (omega (arith, shard_inside i h))

  fetch-from :
      (left i : ℕ)
      → i + left ≤ n
      → fetch s n left i
        ≡ ok (
            take
              (left * (length s.last_layout / n))
              (drop (i * (length s.last_layout / n)) s.last_layout))
  unfolding fetch
  fetch-from zero i h =
      ap (λ (k : ℕ). ok (take k (drop (i * (length s.last_layout / n)) s.last_layout))) {x = 0}
        (omega arith)
  fetch-from (suc left) i h =
      let size = length s.last_layout / n in
      rw (get_layout-shard i (omega arith), fetch-from left (i + 1) (omega arith))
        (ap ok (
          ap (λ zs. take size (drop (i * size) s.last_layout) ++ take (left * size) zs)
            (ap (λ (k : ℕ). drop k s.last_layout) (grind arith)
              ∙ sym (drop-drop (i * size) size s.last_layout))
          ∙ take-add size (left * size) (drop (i * size) s.last_layout)
          ∙ ap (λ (k : ℕ). take k (drop (i * size) s.last_layout)) (grind arith)))

  -- For a positive number of shards and a layout of less than 2^64 words, the answers of GetLayout
  -- for all the shards in turn, with the current snapshot, are together the first words of the
  -- layout, as many as the shards have: no word is left out between them, and none is served twice.
  pub fetch-all : fetch s n n 0 ≡ ok (take (n * (length s.last_layout / n)) s.last_layout)
  fetch-all =
      fetch-from n 0 (omega arith)
      ∙ ap (λ (k : ℕ). ok (take (n * (length s.last_layout / n)) (drop k s.last_layout))) {y = 0}
          (omega arith)
