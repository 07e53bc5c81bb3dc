-- ===== src/HwDecoder/Planes.antt =====
-- Where the pixels of a picture stand in the buffer.
use infer_server.Base.{
  ℕ, zero, suc, ◌+◌, ◌-◌, ◌*◌, ◌/◌, ◌<◌, ◌≤◌, ◌≡◌, refl, ap, ◌∙◌, sym, inl, inr, List, [], ◌∷◌,
  ◌++◌, some, arith, length, length-append, get_elem?, ◌==◌, ltb, if◌then◌else◌, if_true, if_false,
  Bool-cases,
}
use infer_server.HwDecoder.{AvFrame, bytes, copy_rows, copy_plane, extract_nv12}

get_elem?-left : (xs ys : List ℕ) (i : ℕ) → i < length xs → get_elem? (xs ++ ys) i ≡ get_elem? xs i
get_elem?-left [] ys i h = absurd (omega (arith, h))
get_elem?-left (x ∷ xs) ys zero h = refl
get_elem?-left (x ∷ xs) ys (suc i) h = get_elem?-left xs ys i (omega (arith, h))

get_elem?-right :
    (xs ys : List ℕ) (n i : ℕ) → length xs ≡ n → get_elem? (xs ++ ys) (n + i) ≡ get_elem? ys i
get_elem?-right [] ys n i h = ap (get_elem? ys) (omega (arith, h))
get_elem?-right (x ∷ xs) ys zero i h = absurd (omega (arith, h))
get_elem?-right (x ∷ xs) ys (suc n) i h =
    let next : suc n + i ≡ suc (n + i) = omega arith in
    ap (get_elem? (x ∷ (xs ++ ys))) next ∙ get_elem?-right xs ys n i (omega (arith, h))

pub length-bytes : (plane : ℕ → ℕ) (start n : ℕ) → length (bytes plane start n) ≡ n
unfolding bytes
length-bytes plane start zero = refl
length-bytes plane start (suc n) = ap suc (length-bytes plane (suc start) n)

get_elem?-bytes :
    (plane : ℕ → ℕ) (start n i : ℕ)
    → i < n
    → get_elem? (bytes plane start n) i ≡ some (plane (start + i))
unfolding bytes
get_elem?-bytes plane start zero i h = absurd (omega (arith, h))
get_elem?-bytes plane start (suc n) zero h = ap (λ k. some (plane k)) (omega arith)
get_elem?-bytes plane start (suc n) (suc i) h =
    get_elem?-bytes plane (suc start) n i (omega (arith, h))
    ∙ ap (λ k. some (plane k)) (omega arith)

length-copy_rows :
    (plane : ℕ → ℕ) (linesize w row rows : ℕ)
    → length (copy_rows plane linesize w row rows) ≡ w * rows
unfolding copy_rows
length-copy_rows plane linesize w row zero = omega arith
length-copy_rows plane linesize w row (suc rows) = grind (
  arith,
  length-append (bytes plane (row * linesize) w) (copy_rows plane linesize w (suc row) rows),
  length-bytes plane (row * linesize) w,
  length-copy_rows plane linesize w (suc row) rows,
)

get_elem?-copy_rows :
    (plane : ℕ → ℕ) (linesize w first rows row col : ℕ)
    → row < rows
    → col < w
    → get_elem? (copy_rows plane linesize w first rows) (row * w + col)
      ≡ some (plane ((first + row) * linesize + col))
unfolding copy_rows
get_elem?-copy_rows plane linesize w first zero row col hr hc = absurd (omega (arith, hr))
get_elem?-copy_rows plane linesize w first (suc rows) zero col hr hc =
    ap (get_elem? (copy_rows plane linesize w first (suc rows))) (grind arith)
    ∙ get_elem?-left (bytes plane (first * linesize) w)
        (copy_rows plane linesize w (suc first) rows) col
        (omega (arith, length-bytes plane (first * linesize) w))
    ∙ get_elem?-bytes plane (first * linesize) w col hc
    ∙ ap (λ k. some (plane k)) (grind arith)
get_elem?-copy_rows plane linesize w first (suc rows) (suc row) col hr hc =
    ap (get_elem? (copy_rows plane linesize w first (suc rows))) (grind arith)
    ∙ get_elem?-right (bytes plane (first * linesize) w)
        (copy_rows plane linesize w (suc first) rows) w (row * w + col)
        (length-bytes plane (first * linesize) w)
    ∙ get_elem?-copy_rows plane linesize w (suc first) rows row col (omega (arith, hr)) hc
    ∙ ap (λ k. some (plane k)) (grind arith)

length-copy_plane :
    (plane : ℕ → ℕ) (linesize w rows : ℕ) → length (copy_plane plane linesize w rows) ≡ w * rows
unfolding copy_plane
length-copy_plane plane linesize w rows = elim (Bool-cases (linesize == w)) [
  | inl e ↦ ap length (if_true _ _ e) ∙ length-bytes plane 0 (w * rows)
  | inr e ↦ ap length (if_false _ _ e) ∙ length-copy_rows plane linesize w 0 rows
]

-- A row and a column within the picture give an index within the plane.
index_lt : (w rows row col : ℕ) → row < rows → col < w → row * w + col < w * rows
index_lt w zero row col hr hc = absurd (omega (arith, hr))
index_lt w (suc rows) zero col hr hc = grind arith
index_lt w (suc rows) (suc row) col hr hc =
    grind (arith, index_lt w rows row col (omega (arith, hr)) hc)

index_split : (w h row col : ℕ) → h ≤ row → row * w + col ≡ w * h + ((row - h) * w + col)
index_split w h row col le =
    let d = row - h in let e : row ≡ h + d = omega arith in ap (λ k. k * w + col) e ∙ grind arith

get_elem?-copy_plane :
    (plane : ℕ → ℕ) (linesize w rows row col : ℕ)
    → row < rows
    → col < w
    → get_elem? (copy_plane plane linesize w rows) (row * w + col)
      ≡ some (plane (row * linesize + col))
unfolding copy_plane
get_elem?-copy_plane plane linesize w rows row col hr hc = elim (Bool-cases (linesize == w)) [
  | inl e ↦
      ap (λ xs. get_elem? xs (row * w + col)) (if_true _ _ e)
      ∙ get_elem?-bytes plane 0 (w * rows) (row * w + col) (index_lt w rows row col hr hc)
      ∙ ap (λ k. some (plane k)) (grind arith)
  | inr e ↦
      ap (λ xs. get_elem? xs (row * w + col)) (if_false _ _ e)
      ∙ get_elem?-copy_rows plane linesize w 0 rows row col hr hc
      ∙ ap (λ k. some (plane k)) (grind arith)
]

-- The byte of a picture at a row and a column: the rows of the chroma plane follow those of the luma
-- plane.
abbrev pub pixel : AvFrame → ℕ → ℕ → ℕ
pixel f row col =
    if ltb row f.height
    then f.data0 (row * f.linesize0 + col)
    else f.data1 ((row - f.height) * f.linesize1 + col)

pub length-extract_nv12 :
    (f : AvFrame) → length (extract_nv12 f) ≡ f.width * f.height + f.width * (f.height / 2)
unfolding extract_nv12
length-extract_nv12 f =
    let luma = copy_plane f.data0 f.linesize0 f.width f.height in
    let chroma = copy_plane f.data1 f.linesize1 f.width (f.height / 2) in
    omega (
      arith,
      length-append luma chroma,
      length-copy_plane f.data0 f.linesize0 f.width f.height,
      length-copy_plane f.data1 f.linesize1 f.width (f.height / 2),
    )

-- The rows of both planes stand in the buffer one behind the other without padding, whatever padding
-- the lines of the planes have: for each row of the luma plane, or of the chroma plane behind it, and
-- each column, the byte at index `row * width + col` is that of the picture.
pub get_elem?-extract_nv12 :
    (f : AvFrame) (row col : ℕ)
    → row < f.height + f.height / 2
    → col < f.width
    → get_elem? (extract_nv12 f) (row * f.width + col) ≡ some (pixel f row col)
unfolding extract_nv12
get_elem?-extract_nv12 f row col hr hc =
    let luma = copy_plane f.data0 f.linesize0 f.width f.height in
    let chroma = copy_plane f.data1 f.linesize1 f.width (f.height / 2) in
    let luma_length = length-copy_plane f.data0 f.linesize0 f.width f.height in
    elim (Bool-cases (ltb row f.height)) [
      | inl e ↦
          let hr' : row < f.height = ground arith in
          get_elem?-left luma chroma (row * f.width + col)
            (omega (arith, luma_length, index_lt f.width f.height row col hr' hc))
          ∙ get_elem?-copy_plane f.data0 f.linesize0 f.width f.height row col hr' hc
          ∙ ap some (sym (if_true _ _ e))
      | inr e ↦
          let above : f.height ≤ row = ground arith in
          let below : row - f.height < f.height / 2 = omega arith in
          let index : row * f.width + col
              ≡ f.width * f.height + ((row - f.height) * f.width + col) =
            index_split f.width f.height row col above in
          ap (get_elem? (luma ++ chroma)) index
          ∙ get_elem?-right luma chroma (f.width * f.height) ((row - f.height) * f.width + col)
              luma_length
          ∙ get_elem?-copy_plane f.data1 f.linesize1 f.width (f.height / 2) (row - f.height) col
              below hc
          ∙ ap some (sym (if_false _ _ e))
    ]
