-- ===== src/Gemm.antt =====
-- The software matrix product of src/sw/project/dav2_ops.c (dav2_qgemm_cpu). An array is a map from
-- indices to values; the sums that C does in int32_t are exact (Gemm/Bounds shows that they fit).
pub mod Dot
pub mod Cells
pub mod Product
pub mod Bounds
pub mod Tests
use risc_v_vi_t_accelerator.Base.{
  ℕ, zero, suc, ◌+◌, ◌-◌, ◌*◌, ◌/◌, ◌^◌, Bool, ltb, leb, ◌&&◌, ◌==◌, if◌then◌else◌, ℤ, pos,
  pos_part, neg_part, ◌+ℤ◌, ◌*ℤ◌, for_range, Option, some, none, ◌>>=◌,
}

abbrev pub Ints : Type 0
Ints = ℕ → ℤ

abbrev pub update : Ints → ℕ → ℤ → Ints
update a i v j = if i == j then v else a j

-- DAV2_SCRATCH_ELEMS
abbrev pub tile_elems : ℕ
tile_elems = 20480

-- `for (; k + 3 < K; k += 4)`, four products in a round; the result is (k, s).
pub dot_fours : ℕ → Ints → Ints → ℕ → ℕ → ℤ → ℕ × ℤ
dot_fours zero ar wr len k s = (k, s)
dot_fours (suc fuel) ar wr len k s =
    let rest = dot_fours fuel ar wr len (k + 4) (
      s
      +ℤ ar k *ℤ wr k
      +ℤ ar (k + 1) *ℤ wr (k + 1)
      +ℤ ar (k + 2) *ℤ wr (k + 2)
      +ℤ ar (k + 3) *ℤ wr (k + 3)) in
    if ltb (k + 3) len then rest else (k, s)

-- `for (; k < K; k++)`
pub dot_ones : ℕ → Ints → Ints → ℕ → ℤ → ℤ
dot_ones zero ar wr k s = s
dot_ones (suc n) ar wr k s = dot_ones n ar wr (k + 1) (s +ℤ ar k *ℤ wr k)

pub row_dot : Ints → Ints → ℕ → ℤ
row_dot ar wr len = let (k, s) = dot_fours len ar wr len 0 (pos 0) in dot_ones (len - k) ar wr k s

-- The same loops with the int32_t of the source: `none` where a product or a sum does not fit, which
-- is undefined in C.
unfoldable pub checked : ℤ → Option ℤ
checked z = if ltb (pos_part z) (2 ^ 31) && leb (neg_part z) (2 ^ 31) then some z else none

-- `s += (int32_t)ar[k] * (int32_t)wr[k];`
unfoldable pub add_product : Ints → Ints → ℕ → ℤ → Option ℤ
add_product ar wr k s = do p ← checked (ar k *ℤ wr k); checked (s +ℤ p)

unfoldable pub checked_fours : ℕ → Ints → Ints → ℕ → ℕ → ℤ → Option (ℕ × ℤ)
checked_fours zero ar wr len k s = some (k, s)
checked_fours (suc fuel) ar wr len k s =
    let rest = (do
      s1 ← add_product ar wr k s
      s2 ← add_product ar wr (k + 1) s1
      s3 ← add_product ar wr (k + 2) s2
      s4 ← add_product ar wr (k + 3) s3
      checked_fours fuel ar wr len (k + 4) s4) in
    if ltb (k + 3) len then rest else some (k, s)

unfoldable pub checked_ones : ℕ → Ints → Ints → ℕ → ℤ → Option ℤ
checked_ones zero ar wr k s = some s
checked_ones (suc n) ar wr k s = do s' ← add_product ar wr k s; checked_ones n ar wr (k + 1) s'

unfoldable pub checked_row_dot : Ints → Ints → ℕ → Option ℤ
checked_row_dot ar wr len = do
  r ← checked_fours len ar wr len 0 (pos 0)
  checked_ones (len - r.0) ar wr r.0 r.1

-- dav2_copy16 between two arrays (Copy/Laws).
abbrev pub copy_into : Ints → ℕ → Ints → Ints
copy_into src n dst i = if ltb i n then src i else dst i

module _ (av w : Ints) (N K M : ℕ) where
  -- The rows of one tile, `nt` of them from row n0 on, against every weight row.
  pub tile_products : Ints → ℕ → ℕ → Ints → Ints
  tile_products arows n0 nt acc =
      for_range M 0
        (λ m. for_range nt 0 (λ t orow.
          update orow (m * N + n0 + t) (row_dot (λ k. arows (t * K + k)) (λ k. w (m * K + k)) K)))
        acc

  -- One round of `for (n0 = 0; n0 < N; n0 += rows_per_tile)`; the state is (tile_a, acc).
  pub tile_round : ℕ → ℕ → Ints × Ints → Ints × Ints
  tile_round rows n0 (tile, acc) =
      let nt = if ltb rows (N - n0) then rows else N - n0 in
      if leb (nt * K) tile_elems
      then (let tile' = copy_into (λ i. av (n0 * K + i)) (nt * K) tile in
          (tile', tile_products tile' n0 nt acc))
      else (tile, tile_products (λ i. av (n0 * K + i)) n0 nt acc)

  pub tile_loop : ℕ → ℕ → ℕ → Ints × Ints → Ints × Ints
  tile_loop zero rows n0 s = s
  tile_loop (suc fuel) rows n0 s =
      let rest = tile_loop fuel rows (n0 + rows) (tile_round rows n0 s) in
      if ltb n0 N then rest else s

  pub qgemm_cpu : Ints × Ints → Ints × Ints
  qgemm_cpu s =
      let rows = if ltb (tile_elems / K) 1 then 1 else tile_elems / K in tile_loop N rows 0 s
