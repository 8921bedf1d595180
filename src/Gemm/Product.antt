-- ===== src/Gemm/Product.antt =====
-- qgemm_cpu fills the accumulator matrix with the dot products of all rows.
use risc_v_vi_t_accelerator.Base.{
  ℕ, zero, suc, ◌+◌, ◌-◌, ◌*◌, ◌/◌, ◌%◌, ◌≤◌, ◌<◌, ◌≡◌, refl, ◌∙◌, ap, arith, Bool, true, false,
  ◌||◌, ◌&&◌, leb, ltb, ◌==◌, if◌then◌else◌, Bool-cases, inl, inr, ℤ, for_range, for_range_inv,
}
use native.Mathlib.Nat.{mod-lt}
use risc_v_vi_t_accelerator.Gemm.{
  Ints, update, tile_elems, copy_into, row_dot, tile_products, tile_round, tile_loop, qgemm_cpu,
}
use risc_v_vi_t_accelerator.Gemm.Dot.{dot, row_dot-dot, dot_ext}
use risc_v_vi_t_accelerator.Gemm.Cells.{Filled, Filled-none, Filled-cong, Filled-store}

module _ (av w : Ints) (N K M : ℕ) (acc0 : Ints) where
  -- Row n of A against row m of W.
  abbrev pub cell : ℕ → ℕ → ℤ
  cell m n = dot (λ k. av (n * K + k)) (λ k. w (m * K + k)) K

  -- All weight rows of the first n0 columns, and then as far as the loops of a tile have come.
  abbrev before : ℕ → ℕ → ℕ → Bool
  before n0 m n = ltb m M && ltb n n0

  abbrev rows_done : ℕ → ℕ → ℕ → ℕ → ℕ → Bool
  rows_done n0 nt m0 m n = before n0 m n || (ltb m m0 && ltb n (n0 + nt))

  abbrev cells_done : ℕ → ℕ → ℕ → ℕ → ℕ → ℕ → Bool
  cells_done n0 nt m0 t m n = rows_done n0 nt m0 m n || (m == m0 && (leb n0 n && ltb n (n0 + t)))

  -- `arows` holds the nt rows of A from n0 on.
  abbrev HoldsRows : Ints → ℕ → ℕ → Type 0
  HoldsRows arows n0 nt = (i : ℕ) → i < nt * K → arows i ≡ av (n0 * K + i)

  row_dot-cell :
      (arows : Ints) (n0 nt m t : ℕ)
      → HoldsRows arows n0 nt
      → t < nt
      → row_dot (λ k. arows (t * K + k)) (λ k. w (m * K + k)) K ≡ cell m (n0 + t)
  row_dot-cell arows n0 nt m t h lt =
      row_dot-dot (λ k. arows (t * K + k)) (λ k. w (m * K + k)) K
      ∙ dot_ext (λ k. arows (t * K + k)) (λ k. av ((n0 + t) * K + k)) (λ k. w (m * K + k)) K
          (λ k hk.
            h (t * K + k) (grind arith)
            ∙ ap av {x = n0 * K + (t * K + k)} {y = (n0 + t) * K + k} (omega arith))

  tile_products-Filled :
      (arows : Ints) (n0 nt : ℕ) (acc : Ints)
      → HoldsRows arows n0 nt
      → n0 + nt ≤ N
      → 0 < N
      → Filled N cell acc0 (before n0) acc
      → Filled N cell acc0 (before (n0 + nt)) (tile_products av w N K M arows n0 nt acc)
  unfolding tile_products
  tile_products-Filled arows n0 nt acc rows fits pos f =
      Filled-cong N cell acc0 (rows_done n0 nt M) (before (n0 + nt)) _ (λ m n h. ground arith) pos
        (for_range_inv (λ m a. Filled N cell acc0 (rows_done n0 nt m) a) _ M 0 M acc (omega arith)
          row_step
          (Filled-cong N cell acc0 (before n0) (rows_done n0 nt 0) acc (λ m n h. ground arith) pos
            f))
    where
      cell_step :
          (m t : ℕ) (orow : Ints)
          → m < M
          → t < nt
          → Filled N cell acc0 (cells_done n0 nt m t) orow
          → Filled N cell acc0 (cells_done n0 nt m (suc t)) (
              update orow
                (m * N + n0 + t)
                (row_dot (λ k. arows (t * K + k)) (λ k. w (m * K + k)) K))
      cell_step m t orow hm ht g =
          rw (row_dot-cell arows n0 nt m t rows ht, place)
            (Filled-cong N cell acc0 (λ a b. cells_done n0 nt m t a b || (a == m && b == n0 + t))
              (cells_done n0 nt m (suc t)) _ (λ a b h. ground arith) pos
              (Filled-store N cell acc0 (cells_done n0 nt m t) orow m (n0 + t) (omega arith) g))
        where
          place : m * N + n0 + t ≡ m * N + (n0 + t)
          place = omega arith

      row_step :
          (m : ℕ) (a : Ints)
          → 0 ≤ m
          → m < M
          → Filled N cell acc0 (rows_done n0 nt m) a
          → Filled N cell acc0 (rows_done n0 nt (suc m)) (
              for_range nt 0
                (λ t orow.
                  update orow
                    (m * N + n0 + t)
                    (row_dot (λ k. arows (t * K + k)) (λ k. w (m * K + k)) K))
                a)
      row_step m a lo hm g =
          Filled-cong N cell acc0 (cells_done n0 nt m nt) (rows_done n0 nt (suc m)) _
            (λ x y h. ground arith) pos
            (for_range_inv (λ t b. Filled N cell acc0 (cells_done n0 nt m t) b) _ nt 0 nt a
              (omega arith) (λ t b _ ht. cell_step m t b hm ht)
              (Filled-cong N cell acc0 (rows_done n0 nt m) (cells_done n0 nt m 0) a
                (λ x y h. ground arith) pos g))

  tile_round-Filled :
      (rows n0 : ℕ) (s : Ints × Ints)
      → n0 < N
      → Filled N cell acc0 (before n0) s.1
      → Filled N cell acc0 (before (n0 + rows)) (tile_round av w N K M rows n0 s).1
  unfolding tile_round
  tile_round-Filled rows n0 s h f =
      Filled-cong N cell acc0 (before (n0 + nt)) (before (n0 + rows)) _ (λ m n hn. ground arith)
        (omega arith) (staged (leb (nt * K) tile_elems))
    where
      nt : ℕ
      nt = if ltb rows (N - n0) then rows else N - n0

      fits : n0 + nt ≤ N
      fits = ground arith

      tile' : Ints
      tile' = copy_into (λ i. av (n0 * K + i)) (nt * K) s.0

      staged :
          (b : Bool)
          → Filled N cell acc0
              (before (n0 + nt))
              (if◌then◌else◌ {A = Ints × Ints} b
                (tile', tile_products av w N K M tile' n0 nt s.1)
                (s.0, tile_products av w N K M (λ i. av (n0 * K + i)) n0 nt s.1)).1
      staged true = tile_products-Filled tile' n0 nt s.1 (λ i hi. ground arith) fits (omega arith) f
      staged false =
          tile_products-Filled (λ i. av (n0 * K + i)) n0 nt s.1 (λ i hi. refl) fits (omega arith) f

  tile_loop-Filled :
      (fuel rows n0 : ℕ) (s : Ints × Ints)
      → 0 < N
      → 1 ≤ rows
      → N ≤ n0 + fuel
      → Filled N cell acc0 (before n0) s.1
      → Filled N cell acc0 (before N) (tile_loop av w N K M fuel rows n0 s).1
  unfolding tile_loop
  tile_loop-Filled zero rows n0 s pos big enough f =
      Filled-cong N cell acc0 (before n0) (before N) s.1 (λ m n h. ground arith) pos f
  tile_loop-Filled (suc fuel) rows n0 s pos big enough f = elim (Bool-cases (ltb n0 N)) [
    | inl more ↦ rw more (
        tile_loop-Filled fuel rows (n0 + rows) (tile_round av w N K M rows n0 s) pos big
          (omega arith) (tile_round-Filled rows n0 s (ground arith) f))
    | inr done ↦
        rw done (Filled-cong N cell acc0 (before n0) (before N) s.1 (λ m n h. ground arith) pos f)
  ]

-- For N ≥ 1 columns and K ≥ 1, whatever the tile size that follows from K and whatever the scratch
-- held, qgemm_cpu ends with acc[m N + n] equal to the dot product of row n of A and row m of W for
-- every m < M and n < N, and with every entry from M N on as it was.
pub qgemm_cpu-dot :
    (av w : Ints) (N K M : ℕ) (tile acc0 : Ints) (j : ℕ)
    → 0 < N
    → 0 < K
    → (qgemm_cpu av w N K M (tile, acc0)).1 j
      ≡ (if ltb (j / N) M then dot (λ k. av (j % N * K + k)) (λ k. w (j / N * K + k)) K else acc0 j)
unfolding qgemm_cpu
qgemm_cpu-dot av w N K M tile acc0 j hN hK =
    tile_loop-Filled av w N K M acc0 N rows 0 (tile, acc0) hN (ground arith) (omega arith)
      (Filled-cong N (cell av w N K M acc0) acc0 (λ m n. false) (before av w N K M acc0 0) acc0
        (λ m n h. ground arith) hN (Filled-none N (cell av w N K M acc0) acc0))
      j
    ∙ ground (arith, mod-lt j hN)
  where
    rows : ℕ
    rows = if ltb (tile_elems / K) 1 then 1 else tile_elems / K
