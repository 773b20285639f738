-- ===== src/Row/Cells/Offsets.antt =====
-- `ensureCalculatedOffsets` of include/Row.hpp on the bytes of a row.
use voltdb_client_cpp.Prelude.{
  some_inj, ℕ, zero, suc, ◌+◌, ◌≡◌, refl, subst, some, List, [], ◌∷◌, arith, length, get_elem?,
}
use voltdb_client_cpp.Prelude.Int.{ℤ, pos, ◌+ℤ◌}
use voltdb_client_cpp.Action.{done}
use voltdb_client_cpp.Buffer.{ByteBuffer}
use voltdb_client_cpp.Buffer.At.{Stands, Stands-left, Stands-right}
use voltdb_client_cpp.Row.{Column, offsets_from}
use voltdb_client_cpp.Row.Cells.{Cell, row_bytes, cell_bytes, AllCells, Typed, width-cell}

-- Each value begins where the one in front of it ends.
abbrev pub starts : ℕ → List Cell → List ℤ
starts i [] = []
starts i (c ∷ cs) = pos i ∷ starts (i + length (cell_bytes c)) cs

add_pos : (i n : ℕ) → pos i +ℤ pos n ≡ pos (i + n)
add_pos i n = ground arith

-- In a buffer where the values of a row stand at `i`, each of a size that fits its column, and for
-- columns of their types, whatever their names, the offsets that the code calculates are those at which the values begin.
pub offsets_from-starts :
    (i : ℕ) (c : Cell) (cs : List Cell) (columns : List Column) (b : ByteBuffer)
    → Stands (row_bytes (c ∷ cs)) i b
    → AllCells (c ∷ cs)
    → Typed columns (c ∷ cs)
    → offsets_from (pos i) columns b ≡ done (starts i (c ∷ cs)) b
unfolding offsets_from
offsets_from-starts i c cs [] b s f t = elim t [ ]
offsets_from-starts i c [] (x ∷ []) b s f t = refl
offsets_from-starts i c [] (x ∷ y ∷ xs) b s f t = elim t.1 [ ]
offsets_from-starts i c (d ∷ cs) (x ∷ []) b s f t = elim t.1 [ ]
offsets_from-starts i c (d ∷ cs) (x ∷ y ∷ xs) b s f t =
    let w = (width-cell c f.0).reads i b (Stands-left (cell_bytes c) (row_bytes (d ∷ cs)) i b s) in
    let n = i + length (cell_bytes c) in
    let rest =
      offsets_from-starts n d cs (y ∷ xs) b (Stands-right (cell_bytes c) (row_bytes (d ∷ cs)) i b s)
        f.1 t.1 in
    rw (t.0, w, add_pos i (length (cell_bytes c)), rest) refl

-- A value of the row stands at its offset.
pub Stands-cell :
    (i k : ℕ) (cs : List Cell) (c : Cell) (b : ByteBuffer)
    → Stands (row_bytes cs) i b
    → get_elem? cs k ≡ some c
    → (o : ℕ) × (get_elem? (starts i cs) k ≡ some (pos o)) × Stands (cell_bytes c) o b
Stands-cell i k [] c b s e = cc
Stands-cell i zero (d ∷ cs) c b s e = (
  i,
  refl,
  subst (λ (x : Cell). Stands (cell_bytes x) i b) (some_inj e)
      (Stands-left (cell_bytes d) (row_bytes cs) i b s),
)
Stands-cell i (suc k) (d ∷ cs) c b s e =
    Stands-cell (i + length (cell_bytes d)) k cs c b
      (Stands-right (cell_bytes d) (row_bytes cs) i b s) e
