-- ===== src/Manifest/Pairs.antt =====
-- The pairs of a manifest, `manifest_name_value` of libbutl/manifest-types.hxx less its lines,
-- columns and positions, and what the parser and the serializer have in common.
use libbutl.Prelude.{Bool, ◌&&◌, Bytes, is_empty}

pub record NameValue : Type 0 where
  pub name : Bytes
  pub value : Bytes

-- `empty ()`: the pair that ends a manifest or the stream.
abbrev pub empty : NameValue → Bool
empty r = is_empty r.name && is_empty r.value

abbrev pub pair : Bytes → Bytes → NameValue
pair n v = record { name = n; value = v }

-- `enum {start, body, end} s_`, in both classes.
pub data Stage : Type 0 where
  start body end : Stage
