-- ===== src/Mmdb/Writer.antt =====
-- src/geo.rs, module `test_mmdb`: the bytes of a test database. A panic of the writer is `none`; how an
-- `f64` is laid out in bytes is a parameter.
use proxpulse_judge.Base.{
  ℕ, zero, suc, ◌+◌, ◌-◌, ◌*◌, ◌/◌, ◌%◌, ◌^◌, min, Option, none, some, [], ◌∷◌, ◌++◌, if◌then◌else◌,
  ltb, leb, ◌==◌, length, ◌>>=◌, replicate, Text, Bytes, codes,
}
use proxpulse_judge.Str.Basic.{as_bytes}
use proxpulse_judge.Geo.Value.{
  Value, null, boolean, number, string, array, object, Number, unsigned, negative, float, Items,
  no_items, item, Fields, no_fields, field,
}

abbrev pub prefix_len : ℕ
prefix_len = 24

-- `to_be_bytes` of a number of `n` bytes
unfoldable pub be_bytes : ℕ → ℕ → Bytes
be_bytes zero v = []
be_bytes (suc n) v = (v / 256 ^ n % 256) ∷ be_bytes n v

-- The control byte, the extended type and the size that does not fit.
unfoldable pub control : ℕ → ℕ → Option Bytes
control kind size =
    if ltb size 285
    then some (
        ((if ltb 7 kind then 0 else kind) * 32 + min size 29)
        ∷ ((if ltb 7 kind then (kind - 7) ∷ [] else [])
            ++ (if leb 29 size then (size - 29) ∷ [] else [])))
    else none

unfoldable pub encode_text : Text → Option Bytes
unfolding control as_bytes
encode_text s = control 2 (length (as_bytes s)) >>= λ c. some (c ++ as_bytes s)

module _ {F : Type 0} where
  abbrev pub count_items : Items F → ℕ
  count_items no_items = 0
  count_items (item v vs) = suc (count_items vs)

  abbrev pub count_fields : Fields F → ℕ
  count_fields no_fields = 0
  count_fields (field k v fs) = suc (count_fields fs)

  -- A `u32`, or a panic.
  unfoldable pub encode_number : (F → Bytes) → Number F → Option Bytes
  unfolding control be_bytes
  encode_number f64_bytes (float x) = control 3 8 >>= λ c. some (c ++ f64_bytes x)
  encode_number f64_bytes (unsigned n) =
      control 6 4 >>= λ c. if ltb n (2 ^ 32) then some (c ++ be_bytes 4 n) else none
  encode_number f64_bytes (negative n) = none

  unfoldable mutual
    unfolding control encode_text encode_number

    pub encode : (F → Bytes) → Value F → Option Bytes
    encode f64_bytes (string s) = encode_text s
    encode f64_bytes (number n) = encode_number f64_bytes n
    encode f64_bytes (object fs) =
        control 7 (count_fields fs) >>= λ c. encode_fields f64_bytes fs >>= λ b. some (c ++ b)
    encode f64_bytes (array vs) =
        control 11 (count_items vs) >>= λ c. encode_items f64_bytes vs >>= λ b. some (c ++ b)
    encode f64_bytes (boolean b) = none
    encode f64_bytes null = none

    pub encode_fields : (F → Bytes) → Fields F → Option Bytes
    encode_fields f64_bytes no_fields = some []
    encode_fields f64_bytes (field k v fs) = encode_text k >>= λ a.
        encode f64_bytes v >>= λ b. encode_fields f64_bytes fs >>= λ c. some (a ++ (b ++ c))

    pub encode_items : (F → Bytes) → Items F → Option Bytes
    encode_items f64_bytes no_items = some []
    encode_items f64_bytes (item v vs) =
        encode f64_bytes v >>= λ a. encode_items f64_bytes vs >>= λ b. some (a ++ b)

-- the bit of an address that a node of the tree looks at
unfoldable pub bit_at : ℕ → ℕ → ℕ
bit_at bits depth = bits / 2 ^ (31 - depth) % 2

abbrev pub no_data_record : ℕ
no_data_record = 24

abbrev pub data_record : ℕ
data_record = 40

-- The left and the right record of the node at a depth.
unfoldable pub node : ℕ → ℕ → ℕ × ℕ
unfolding bit_at
node bits depth =
    let next = (if depth + 1 == prefix_len then data_record else depth + 1) in
    if bit_at bits depth == 0 then (next, no_data_record) else (no_data_record, next)

-- `left` nodes from a depth on, in records of 24 bits
unfoldable pub tree : ℕ → ℕ → ℕ → Bytes
unfolding node be_bytes
tree bits zero depth = []
tree bits (suc left) depth =
    let (l, r) = node bits depth in be_bytes 3 l ++ (be_bytes 3 r ++ tree bits left (depth + 1))

-- One integer of the metadata: its name, the kind of its field, and how many bytes it has.
unfoldable pub encode_integer : Text → ℕ → ℕ → ℕ → Option Bytes
unfolding encode_text control be_bytes
encode_integer key kind size v =
    encode_text key >>= λ k. control kind size >>= λ c. some (k ++ (c ++ be_bytes size v))

unfoldable pub metadata : Text → Option Bytes
unfolding encode_integer encode_text control
metadata database_type = do
  start ← control 7 9
  major ← encode_integer (codes "binary_format_major_version") 5 2 2
  minor ← encode_integer (codes "binary_format_minor_version") 5 2 0
  version ← encode_integer (codes "ip_version") 5 2 4
  size ← encode_integer (codes "record_size") 5 2 24
  nodes ← encode_integer (codes "node_count") 6 4 prefix_len
  epoch ← encode_integer (codes "build_epoch") 9 8 1_700_000_000
  type_key ← encode_text (codes "database_type")
  type_name ← encode_text database_type
  description_key ← encode_text (codes "description")
  description ← control 7 1
  english ← encode_text (codes "en")
  about ← encode_text (codes "proxpulse-judge test")
  languages_key ← encode_text (codes "languages")
  languages ← control 11 1
  some (
      start
      ++ (major
          ++ (minor
              ++ (version
                  ++ (size
                      ++ (nodes
                          ++ (epoch
                              ++ (type_key
                                  ++ (type_name
                                      ++ (description_key
                                          ++ (description
                                              ++ (english
                                                  ++ (about
                                                      ++ (languages_key
                                                          ++ (languages ++ english)))))))))))))))

abbrev pub metadata_marker : Bytes
metadata_marker = 0xab ∷ 0xcd ∷ 0xef ∷ codes "MaxMind.com"

-- The bytes of the file: the tree, sixteen zeros, the record and the metadata.
abbrev pub layout : ℕ → Bytes → Bytes → Bytes
layout bits body meta =
    tree bits prefix_len 0 ++ (replicate 16 0 ++ (body ++ (metadata_marker ++ meta)))

unfoldable pub assemble : ℕ → Option Bytes → Option Bytes → Option Bytes
assemble bits (some body) (some meta) = some (layout bits body meta)
assemble bits (some body) none = none
assemble bits none meta = none

module _ {F : Type 0} where
  unfoldable pub write : (F → Bytes) → Text → ℕ → Value F → Option Bytes
  unfolding assemble encode metadata
  write f64_bytes database_type bits record' =
      assemble bits (encode f64_bytes record') (metadata database_type)
