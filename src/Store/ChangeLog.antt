-- ===== src/Store/ChangeLog.antt =====
-- The values of the change log (`internal/store/log.go`): a record of 10 bytes, and for the deletion
-- of an email the copy's UID and mailbox after it.
use mailezine.Prelude.{
  sym, ◌%◌, length-append, take-append, drop-append, ℕ, ◌+◌, ◌<◌, ◌^◌, ◌≡◌, refl, [], ◌∷◌, ◌++◌,
  Option, none, some, if◌then◌else◌, leb, ltb, ◌==◌, ◌&&◌, length, take, drop, arith, ◌∙◌, ap, ◌%◌,
  length-append, take-append, drop-append,
}
use mailezine.Bytes.{Bytes}
use mathlib.Core.List.{append_assoc, append-nil}
use mailezine.Store.Key.BigEndian.{be, be_value, be_value-be, length-be}

abbrev pub op_delete : ℕ
op_delete = 3

-- `Change`, without the number that its key has.
pub record Change : Type 0 where
  pub collection : ℕ
  pub doc_id : ℕ
  pub op : ℕ
  pub mailbox : Bytes
  pub uid : ℕ

-- `encodeChangeValue`
unfoldable pub encode_change_value : ℕ → ℕ → ℕ → Bytes
encode_change_value collection doc_id op = collection ∷ be 8 doc_id ++ op ∷ []

-- `encodeEmailDeleteValue`; the length of the name is cut to 16 bits.
unfoldable pub encode_email_delete_value : ℕ → ℕ → Bytes → ℕ → Bytes
unfolding encode_change_value
encode_email_delete_value collection doc_id mailbox uid =
    encode_change_value collection doc_id op_delete
    ++ (be 8 uid ++ (be 2 (length mailbox) ++ mailbox))

abbrev pub first_byte : Bytes → ℕ
first_byte [] = 0
first_byte (b ∷ bs) = b

-- `v[from : from+n]`
abbrev pub slice : ℕ → ℕ → Bytes → Bytes
slice from n v = take n (drop from v)

abbrev base_change : Bytes → Change
base_change v = record {
  collection = first_byte v;
  doc_id = be_value 0 (slice 1 8 v);
  op = first_byte (drop 9 v);
  mailbox = [];
  uid = 0;
}

abbrev with_copy : Bytes → Change → Change
with_copy v ch =
    let n = be_value 0 (slice 18 2 v) in
    record ch {
      uid = be_value 0 (slice 10 8 v) % 2 ^ 32;
      mailbox = if ltb 0 n && leb (20 + n) (length v) then slice 20 n v else [];
    }

-- The callback of `ChangesSince` on a value; a short one is skipped.
unfoldable pub decode_change : Bytes → Option Change
unfolding be_value
decode_change v =
    if ltb (length v) 10
    then none
    else if (first_byte (drop 9 v) == op_delete) && leb 20 (length v)
    then some (with_copy v (base_change v))
    else some (base_change v)

module _ (c doc op : ℕ) (hd : doc < 2 ^ 64) (rest : Bytes) where
  encoded : Bytes
  encoded = encode_change_value c doc op ++ rest

  encoded-length : length encoded ≡ 10 + length rest
  unfolding encoded encode_change_value
  encoded-length = omega (
    arith,
    length-append (be 8 doc ++ op ∷ []) rest,
    length-append (be 8 doc) (op ∷ []),
    length-be 8 doc,
  )

  encoded-doc : be_value 0 (slice 1 8 encoded) ≡ doc
  unfolding encoded encode_change_value
  encoded-doc =
      ap (be_value 0) (
        ap (take 8) (append_assoc (be 8 doc) (op ∷ []) rest)
        ∙ take-append 8 (be 8 doc) (op ∷ rest) (length-be 8 doc))
      ∙ be_value-be 8 doc hd

  encoded-op : drop 9 encoded ≡ op ∷ rest
  unfolding encoded encode_change_value
  encoded-op =
      ap (drop 8) (append_assoc (be 8 doc) (op ∷ []) rest)
      ∙ drop-append 8 (be 8 doc) (op ∷ rest) (length-be 8 doc)

length-encode_change_value : (c doc op : ℕ) → length (encode_change_value c doc op) ≡ 10
unfolding encode_change_value
length-encode_change_value c doc op =
    omega (arith, length-append (be 8 doc) (op ∷ []), length-be 8 doc)

-- A change record is read back as it was written.
pub change_read_back :
    (c doc op : ℕ)
    → doc < 2 ^ 64
    → decode_change (encode_change_value c doc op)
      ≡ some (record { collection = c; doc_id = doc; op = op; mailbox = []; uid = 0 })
unfolding decode_change encoded
change_read_back c doc op hd =
    let whole = append-nil (encode_change_value c doc op) in
    let v = encode_change_value c doc op in
    let first : first_byte v ≡ c = unfold encode_change_value in refl in
    let number : be_value 0 (slice 1 8 v) ≡ doc =
      ap (λ w. be_value 0 (slice 1 8 w)) (sym whole) ∙ encoded-doc c doc op hd [] in
    let code : first_byte (drop 9 v) ≡ op =
      ap (λ w. first_byte (drop 9 w)) (sym whole) ∙ ap first_byte (encoded-op c doc op hd []) in
    let size = length-encode_change_value c doc op in ground (arith, first, number, code, size)

decode_full :
    (v : Bytes) (c doc uid : ℕ) (mailbox : Bytes)
    → length v ≡ 20 + length mailbox
    → first_byte v ≡ c
    → be_value 0 (slice 1 8 v) ≡ doc
    → first_byte (drop 9 v) ≡ 3
    → be_value 0 (slice 10 8 v) ≡ uid
    → be_value 0 (slice 18 2 v) ≡ length mailbox
    → take (length mailbox) (drop 20 v) ≡ mailbox
    → uid < 2 ^ 32
    → (length mailbox ≡ 0 → mailbox ≡ [])
    → decode_change v
      ≡ some (record { collection = c; doc_id = doc; op = 3; mailbox = mailbox; uid = uid })
unfolding decode_change
decode_full v c doc uid mailbox size first number code copy name_size name hu empty =
    ground (arith, size, first, number, code, copy, name_size, name, hu, empty)

empty_of_length : (l : Bytes) → length l ≡ 0 → l ≡ []
empty_of_length [] h = refl
empty_of_length (x ∷ xs) h = absurd (omega arith)

take-all : (n : ℕ) (l : Bytes) → length l ≡ n → take n l ≡ l
take-all n l h = ap (take n) (sym (append-nil l)) ∙ take-append n l [] h

-- The record of an email's deletion is read back with its mailbox and UID, for names of less than
-- 2^16 bytes.
pub delete_read_back :
    (c doc uid : ℕ) (mailbox : Bytes)
    → doc < 2 ^ 64
    → uid < 2 ^ 32
    → length mailbox < 2 ^ 16
    → decode_change (encode_email_delete_value c doc mailbox uid)
      ≡ some (record { collection = c; doc_id = doc; op = 3; mailbox = mailbox; uid = uid })
unfolding encode_email_delete_value encode_change_value encoded
delete_read_back c doc uid mailbox hd hu hm =
    let name_bytes = be 2 (length mailbox) in
    let rest = be 8 uid ++ (name_bytes ++ mailbox) in
    let head = encode_change_value c doc op_delete in
    let ten = length-encode_change_value c doc op_delete in
    let v = head ++ rest in
    let at10 : drop 10 v ≡ rest = drop-append 10 head rest ten in
    let eighteen : length (head ++ be 8 uid) ≡ 18 =
      omega (arith, ten, length-append head (be 8 uid), length-be 8 uid) in
    let as18 : v ≡ (head ++ be 8 uid) ++ (name_bytes ++ mailbox) =
      sym (append_assoc head (be 8 uid) (name_bytes ++ mailbox)) in
    let at18 : drop 18 v ≡ name_bytes ++ mailbox =
      ap (drop 18) as18 ∙ drop-append 18 (head ++ be 8 uid) (name_bytes ++ mailbox) eighteen in
    let twenty : length ((head ++ be 8 uid) ++ name_bytes) ≡ 20 = omega (
      arith,
      eighteen,
      length-append (head ++ be 8 uid) name_bytes,
      length-be 2 (length mailbox),
    ) in
    let as20 : v ≡ ((head ++ be 8 uid) ++ name_bytes) ++ mailbox =
      as18 ∙ sym (append_assoc (head ++ be 8 uid) name_bytes mailbox) in
    let at20 : drop 20 v ≡ mailbox =
      ap (drop 20) as20 ∙ drop-append 20 ((head ++ be 8 uid) ++ name_bytes) mailbox twenty in
    decode_full v c doc uid mailbox
      (ap length as20
        ∙ omega (arith, twenty, length-append ((head ++ be 8 uid) ++ name_bytes) mailbox))
      refl (encoded-doc c doc op_delete hd rest)
      (ap first_byte (encoded-op c doc op_delete hd rest))
      (ap (λ l. be_value 0 (take 8 l)) at10
        ∙ ap (be_value 0) (take-append 8 (be 8 uid) (name_bytes ++ mailbox) (length-be 8 uid))
        ∙ be_value-be 8 uid (omega arith))
      (ap (λ l. be_value 0 (take 2 l)) at18
        ∙ ap (be_value 0) (take-append 2 name_bytes mailbox (length-be 2 (length mailbox)))
        ∙ be_value-be 2 (length mailbox) (omega arith))
      (ap (take (length mailbox)) at20 ∙ take-all (length mailbox) mailbox refl) hu
      (empty_of_length mailbox)
