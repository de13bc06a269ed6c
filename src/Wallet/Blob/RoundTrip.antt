-- ===== src/Wallet/Blob/RoundTrip.antt =====
-- A blob holds its data (wallet/blobtx/blob_encode.go).
use assertoor.Wallet.Blob.{
  zeros, copy_at, encode_fields, encode_blob_data, BlobCommitment, encode_blob,
}
use assertoor.Prelude.{
  ℕ, zero, suc, ◌+◌, ◌-◌, ◌*◌, ◌≤◌, ◌≡◌, refl, sym, ap, ◌∙◌, inl, inr, Option, List, [], ◌∷◌, ◌++◌,
  arith, leb, Bool-cases, length, take, drop, length-append, length-take, length-drop,
  take-append-drop, drop_all, take_all, drop-append_ge, take-append, drop-append, nat_key,
  string_key,
}

-- The 31 bytes of one field element.
abbrev padded : List ℕ → List ℕ
padded chunk = chunk ++ zeros (31 - length chunk)

-- The field elements that hold the data: each starts with a zero byte, which keeps it below the
-- modulus of the field.
unfoldable fields_of : ℕ → List ℕ → List ℕ
fields_of zero bytes = []
fields_of (suc n) bytes = (0 ∷ padded (take 31 bytes)) ++ fields_of n (drop 31 bytes)

-- What a reader of a blob does: it leaves out the first byte of each field element.
unfoldable pub decode : ℕ → List ℕ → List ℕ
decode zero blob = []
decode (suc n) blob = drop 1 (take 32 blob) ++ decode n (drop 32 blob)

length-zeros : (n : ℕ) → length (zeros n) ≡ n
unfolding zeros
length-zeros zero = refl
length-zeros (suc n) = ap suc (length-zeros n)

zeros-append : (m n : ℕ) → zeros m ++ zeros n ≡ zeros (m + n)
unfolding zeros
zeros-append zero n = ap zeros (omega arith)
zeros-append (suc m) n =
    let e : suc m + n ≡ suc (m + n) = omega arith in rw e (ap (◌∷◌ 0) (zeros-append m n))

drop-zeros : (m n : ℕ) → drop m (zeros (m + n)) ≡ zeros n
unfolding zeros
drop-zeros zero n = ap zeros (omega arith)
drop-zeros (suc m) n = let e : suc m + n ≡ suc (m + n) = omega arith in rw e (drop-zeros m n)

append_assoc : (xs ys zs : List ℕ) → (xs ++ ys) ++ zs ≡ xs ++ (ys ++ zs)
append_assoc [] ys zs = refl
append_assoc (x ∷ xs) ys zs = ap (◌∷◌ x) (append_assoc xs ys zs)

fields_of-empty : (n : ℕ) → fields_of n [] ≡ zeros (n * 32)
unfolding fields_of zeros
fields_of-empty zero = let none_left : 0 ≡ 0 * 32 = omega arith in ap zeros none_left
fields_of-empty (suc n) =
    let sum : 32 + n * 32 ≡ suc n * 32 = omega arith in
    ap (λ zs. (zeros 32) ++ zs) (fields_of-empty n) ∙ zeros-append 32 (n * 32) ∙ ap zeros sum

take-next :
    (n : ℕ) (xs : List ℕ) (y : ℕ) (ys : List ℕ)
    → length xs ≡ n
    → take (n + 1) (xs ++ y ∷ ys) ≡ xs ++ y ∷ []
take-next zero [] y ys e = refl
take-next zero (x ∷ xs) y ys e = absurd (omega arith)
take-next (suc n) [] y ys e = absurd (omega arith)
take-next (suc n) (x ∷ xs) y ys e =
    let s : suc n + 1 ≡ suc (n + 1) = omega arith in
    rw s (ap (◌∷◌ x) (take-next n xs y ys (omega arith)))

-- One round writes one field element behind those that stand already.
copy_at-field :
    (k left : ℕ) (chunk before : List ℕ)
    → length before ≡ k * 32
    → length chunk ≤ 31
    → copy_at (k * 32 + 1) chunk (before ++ zeros (suc left * 32))
      ≡ (before ++ (0 ∷ padded chunk)) ++ zeros (left * 32)
unfolding copy_at zeros
copy_at-field k left chunk before size fits =
    let a = 31 - length chunk in
    let one : suc left * 32 ≡ suc (31 + left * 32) = omega arith in
    let room : zeros (suc left * 32) ≡ 0 ∷ zeros (31 + left * 32) = ap zeros one in
    let blob = before ++ zeros (suc left * 32) in
    let long : length blob ≡ k * 32 + suc left * 32 =
      omega
        (arith, size, length-append before (zeros (suc left * 32)), length-zeros (suc left * 32)) in
    let front : take (k * 32 + 1) blob ≡ before ++ 0 ∷ [] =
      ap (λ zs. take (k * 32 + 1) (before ++ zs)) room
      ∙ take-next (k * 32) before 0 (zeros (31 + left * 32)) size in
    let middle : take (length blob - (k * 32 + 1)) chunk ≡ chunk =
      take_all (length blob - (k * 32 + 1)) chunk (omega (arith, long)) in
    let skip : k * 32 + 1 + length chunk - length before ≡ 1 + length chunk = omega arith in
    let total : suc left * 32 ≡ 1 + length chunk + (a + left * 32) = omega arith in
    let back : drop (k * 32 + 1 + length chunk) blob ≡ zeros a ++ zeros (left * 32) =
      drop-append_ge (k * 32 + 1 + length chunk) before (zeros (suc left * 32)) (omega arith)
      ∙ ap (λ n. drop n (zeros (suc left * 32))) skip
      ∙ ap (λ n. drop (1 + length chunk) (zeros n)) total
      ∙ drop-zeros (1 + length chunk) (a + left * 32)
      ∙ sym (zeros-append a (left * 32)) in
    rw (front, middle, back) (simp append_assoc refl)

encode_fields-fields_of :
    (left k : ℕ) (rest before : List ℕ)
    → length before ≡ k * 32
    → encode_fields left k rest (before ++ zeros (left * 32)) ≡ before ++ fields_of left rest
unfolding encode_fields fields_of zeros
encode_fields-fields_of zero k rest before size =
    let none_left : 0 * 32 ≡ 0 = omega arith in ap (λ n. before ++ zeros n) none_left
encode_fields-fields_of (suc left) k [] before size =
    ap (◌++◌ before) (sym (fields_of-empty (suc left)))
encode_fields-fields_of (suc left) k (b ∷ rest) before size =
    let chunk = take 31 (b ∷ rest) in
    let fits : length chunk ≤ 31 = omega (arith, length-take 31 (b ∷ rest)) in
    let whole : length (padded chunk) ≡ 31 =
      omega (
        arith,
        length-append chunk (zeros (31 - length chunk)),
        length-zeros (31 - length chunk),
      ) in
    let longer : length (before ++ (0 ∷ padded chunk)) ≡ (k + 1) * 32 =
      omega (arith, size, length-append before (0 ∷ padded chunk), whole) in
    ap (encode_fields left (k + 1) (drop 31 (b ∷ rest)))
      (copy_at-field k left chunk before size fits)
    ∙ encode_fields-fields_of left (k + 1) (drop 31 (b ∷ rest)) (before ++ (0 ∷ padded chunk))
        longer
    ∙ append_assoc before (0 ∷ padded chunk) (fields_of left (drop 31 (b ∷ rest)))

take-append_at : (n : ℕ) (xs ys : List ℕ) → length xs ≡ n → take n (xs ++ ys) ≡ xs
take-append_at n xs ys e = rw⁻¹ e (take-append xs ys)

drop-append_at : (n : ℕ) (xs ys : List ℕ) → length xs ≡ n → drop n (xs ++ ys) ≡ ys
drop-append_at n xs ys e = rw⁻¹ e (drop-append xs ys)

length-padded : (bytes : List ℕ) → length (0 ∷ padded (take 31 bytes)) ≡ 32
length-padded bytes = omega (
  arith,
  length-take 31 bytes,
  length-append (take 31 bytes) (zeros (31 - length (take 31 bytes))),
  length-zeros (31 - length (take 31 bytes)),
)

decode-step :
    (n : ℕ) (bytes : List ℕ)
    → decode (suc n) (fields_of (suc n) bytes)
      ≡ padded (take 31 bytes) ++ decode n (fields_of n (drop 31 bytes))
unfolding decode fields_of
decode-step n bytes =
    let field = 0 ∷ padded (take 31 bytes) in
    let rest = fields_of n (drop 31 bytes) in
    let size = length-padded bytes in
    let head = take-append_at 32 field rest size in
    let tail = drop-append_at 32 field rest size in
    ap (λ xs. drop 1 xs ++ decode n (drop 32 (field ++ rest))) head
    ∙ ap (λ xs. padded (take 31 bytes) ++ decode n xs) tail

append_empty : (xs : List ℕ) → xs ++ [] ≡ xs
append_empty [] = refl
append_empty (x ∷ xs) = ap (◌∷◌ x) (append_empty xs)

-- The padding of the last field element and the zeros behind it.
padded-zeros :
    (n : ℕ) (bytes : List ℕ)
    → length bytes ≤ suc n * 31
    → padded (take 31 bytes) ++ (drop 31 bytes ++ zeros (n * 31 - length (drop 31 bytes)))
      ≡ bytes ++ zeros (suc n * 31 - length bytes)
unfolding zeros
padded-zeros n bytes fits = elim (Bool-cases (leb (length bytes) 31)) [
  | inl last ↦
      let whole = take_all 31 bytes (ground arith) in
      let none_left = drop_all 31 bytes (ground arith) in
      let sum : 31 - length bytes + n * 31 ≡ suc n * 31 - length bytes = ground arith in
      rw (whole, none_left)
        (append_assoc bytes (zeros (31 - length bytes)) (zeros (n * 31 - 0))
          ∙ ap (◌++◌ bytes) (zeros-append (31 - length bytes) (n * 31 - 0))
          ∙ ap (λ k. bytes ++ zeros k) (omega (arith, sum)))
  | inr more ↦
      let size : length (take 31 bytes) ≡ 31 = ground (arith, length-take 31 bytes) in
      let rest : length (drop 31 bytes) ≡ length bytes - 31 = length-drop 31 bytes in
      let sum : n * 31 - length (drop 31 bytes) ≡ suc n * 31 - length bytes =
        ground (arith, rest) in
      let whole : (take 31 bytes ++ []) ++ drop 31 bytes ≡ bytes =
        ap (λ xs. xs ++ drop 31 bytes) (append_empty (take 31 bytes)) ∙ take-append-drop 31 bytes in
      rw (size, sum)
        (sym
            (append_assoc (take 31 bytes ++ []) (drop 31 bytes) (zeros (suc n * 31 - length bytes)))
          ∙ ap (λ xs. xs ++ zeros (suc n * 31 - length bytes)) whole)
]

decode-fields_of :
    (n : ℕ) (bytes : List ℕ)
    → length bytes ≤ n * 31
    → decode n (fields_of n bytes) ≡ bytes ++ zeros (n * 31 - length bytes)
unfolding decode fields_of zeros
decode-fields_of zero [] fits = refl
decode-fields_of zero (b ∷ bytes) fits = absurd (omega arith)
decode-fields_of (suc n) bytes fits =
    decode-step n bytes
    ∙ ap (λ xs. padded (take 31 bytes) ++ xs)
        (decode-fields_of n (drop 31 bytes) (omega (arith, length-drop 31 bytes)))
    ∙ padded-zeros n bytes fits

-- Where the field elements of a blob have 32 bytes, data that is encoded fits, and a reader of the
-- blob finds all of it, with zeros behind; longer data is refused.
pub encode_blob-decode {ℓ} :
    {K : Type ℓ} (fields bytes_per_field : ℕ) (blob_to_commitment : List ℕ → Option K)
    (compute_blob_proof : List ℕ → K → Option K) (sum256 : K → List ℕ) (bytes : List ℕ)
    (c : BlobCommitment K)
    → bytes_per_field ≡ 32
    → encode_blob fields bytes_per_field blob_to_commitment compute_blob_proof sum256 bytes ≡ inl c
    → (length bytes ≤ fields * 31)
      × (decode fields c.blob ≡ bytes ++ zeros (fields * 31 - length bytes))
unfolding encode_blob encode_blob_data
encode_blob-decode fields bytes_per_field commit prove sum256 bytes c size e =
    let (fits, same) : (length bytes ≤ fields * (bytes_per_field - 1))
        × (c.blob ≡ encode_blob_data fields bytes) =
      ground arith in
    let bound : fields * (bytes_per_field - 1) ≡ fields * 31 = ap (λ b. fields * (b - 1)) size in
    let room : length bytes ≤ fields * 31 = omega (arith, fits, bound) in
    (
      room,
      ap (decode fields) (same ∙ encode_fields-fields_of fields 0 bytes [] refl)
          ∙ decode-fields_of fields bytes room,
    )
