-- ===== src/Codec/Batch/RoundTrip.antt =====
-- A whole batch (crates/engine/src/db/write_batch.rs), and a reader of its format.
use victory_db.Base.{
  ℕ, zero, suc, ◌+◌, ◌^◌, ◌<◌, ◌≡◌, refl, ap, ◌∙◌, List, [], ◌∷◌, ◌++◌, append_assoc, append-nil,
  Bytes, All, length, take, drop, arith, to_le, length-append, take-append, drop-append,
}
use victory_db.Base.Run.{Run, ok, ◌>>=◌}
use victory_db.Codec.VarInt
use victory_db.Codec.VarInt.Laws.{groups, decode-groups}
use victory_db.Codec.Batch.{Batch, new, header_size, put_bytes, batch_count}
use victory_db.Codec.Batch.Laws.{
  Put, Fits, string_bytes, put_encoding, encodings, layout, IsBatch, new-IsBatch, put_bytes-IsBatch,
  batch_count-IsBatch,
}

-- A reader of the format, to say that the bytes determine the puts.
pub read_string : Bytes → Bytes × Bytes
read_string bytes =
    let (n, used) = VarInt.decode bytes in (take n (drop used bytes), drop n (drop used bytes))

pub read_puts : ℕ → Bytes → List Put
unfolding read_string
read_puts zero bytes = []
read_puts (suc n) [] = []
read_puts (suc n) (tag ∷ bytes) =
    let (key, after_key) = read_string (drop 4 bytes) in
    let (value, after) = read_string after_key in (key, value) ∷ read_puts n after

read_string-string_bytes :
    (s rest : Bytes) → length s < 2 ^ 28 → read_string (string_bytes s ++ rest) ≡ (s, rest)
unfolding read_string
read_string-string_bytes s rest h =
    let len = VarInt.as_slice (groups (length s)) in
    rw (
      append_assoc len s rest,
      decode-groups (length s) (s ++ rest) h,
      drop-append (length len) len (s ++ rest) refl,
      take-append (length s) s rest refl,
      drop-append (length s) s rest refl,
    )

-- The reader takes one put off the front.
read_put :
    (p : Put) (n : ℕ) (rest : Bytes)
    → Fits p
    → read_puts (suc n) (put_encoding p ++ rest) ≡ p ∷ read_puts n rest
unfolding read_puts to_le
read_put (key, value) n rest fits = ground (
  arith,
  append_assoc (string_bytes key) (string_bytes value) rest,
  read_string-string_bytes key (string_bytes value ++ rest),
  read_string-string_bytes value rest,
)

read_puts-encodings : (ps : List Put) → All Fits ps → read_puts (length ps) (encodings ps) ≡ ps
read_puts-encodings [] h = unfold read_puts in refl
read_puts-encodings (p ∷ ps) h =
    read_put p (length ps) (encodings ps) h.0 ∙ ap (λ t. p ∷ t) (read_puts-encodings ps h.1)

-- A caller's sequence of puts on one batch.
unfoldable pub put_all : Batch → List Put → Run Batch
put_all b [] = ok b
put_all b (p ∷ ps) = do b' ← put_bytes b p.0 p.1; put_all b' ps

put_all-IsBatch :
    (ps : List Put) (b : Batch) (done : List Put)
    → IsBatch b done
    → All Fits ps
    → length done + length ps < 2 ^ 32
    → (b' : Batch) × (put_all b ps ≡ ok b') × IsBatch b' (done ++ ps)
unfolding put_all
put_all-IsBatch [] b done is fits small = (b, refl, rw (append-nil done) is)
put_all-IsBatch (p ∷ ps) b done is fits small =
    let (b1, e1, is1) = put_bytes-IsBatch b done p is fits.0 (omega arith) in
    let (b2, e2, is2) =
      put_all-IsBatch ps b1 (done ++ (p ∷ [])) is1 fits.1
        (omega (arith, length-append done (p ∷ []))) in
    (b2, rw e1 e2, rw (append_assoc done (p ∷ []) ps) at is2)

layout-drop : (ps : List Put) → drop header_size (layout ps) ≡ encodings ps
unfolding to_le
layout-drop ps = refl

-- A new batch that is given fewer than 2 ^ 32 puts, each with a key and a value below 2 ^ 28 bytes,
-- takes them all without a panic; it then counts them, its buffer is the header followed by their
-- encodings, and a reader of the format finds exactly these puts in the same order.
pub put_all-round_trip :
    (ps : List Put)
    → All Fits ps
    → length ps < 2 ^ 32
    → (b : Batch) × (put_all new ps ≡ ok b)
      × (batch_count b ≡ ok (length ps))
      × (b.data_bytes ≡ layout ps)
      × (read_puts (length ps) (drop header_size b.data_bytes) ≡ ps)
put_all-round_trip ps fits small =
    let (b, e, is) = put_all-IsBatch ps new [] new-IsBatch fits (omega arith) in
    (
      b,
      e,
      batch_count-IsBatch b ps is,
      is.bytes,
      ap (λ t. read_puts (length ps) (drop header_size t)) is.bytes
          ∙ ap (read_puts (length ps)) (layout-drop ps)
          ∙ read_puts-encodings ps fits,
    )
