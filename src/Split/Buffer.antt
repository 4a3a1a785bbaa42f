-- ===== src/Split/Buffer.antt =====
-- The buffer of an expansion, and the removal of its quotes (crates/expander/src/buf.rs).
use cherubsh.Base.{
  ℕ, ◌+◌, Bool, true, false, ◌||◌, ◌&&◌, List, [], ◌∷◌, ◌++◌, map, Text, length, ◌==◌,
  if◌then◌else◌,
}
use cherubsh.Split.{ctlesc, ctlraw, ctlnul}

abbrev pub ctlfield : ℕ
ctlfield = 0x1e

abbrev pub is_ctl : ℕ → Bool
is_ctl b = b == ctlesc || b == ctlfield || b == ctlnul

pub record ExpandBuf : Type 0 where
  pub bytes : Text
  pub param_nulls : List ℕ
  pub had_quoted_null : Bool
  pub has_dollar_at : Bool
  pub quoted_dollar_at : Bool

abbrev pub new_buffer : ExpandBuf
new_buffer = record {
  bytes = [];
  param_nulls = [];
  had_quoted_null = false;
  has_dollar_at = false;
  quoted_dollar_at = false;
}

abbrev pub push_raw : Text → ExpandBuf → ExpandBuf
push_raw s buf = record buf { bytes = buf.bytes ++ s }

abbrev pub push_raw_byte : ℕ → ExpandBuf → ExpandBuf
push_raw_byte b buf = push_raw (b ∷ []) buf

unfoldable pub push_literal : ℕ → ExpandBuf → ExpandBuf
push_literal b buf = push_raw_byte b (if is_ctl b then push_raw (ctlesc ∷ ctlraw ∷ []) buf else buf)

unfoldable pub push_quoted : ℕ → ExpandBuf → ExpandBuf
push_quoted b buf = push_raw_byte b (push_raw_byte ctlesc buf)

unfoldable pub push_quoted_null : ExpandBuf → ExpandBuf
push_quoted_null buf = push_raw_byte ctlnul (record buf { had_quoted_null = true })

unfoldable pub push_quoted_param_null : ExpandBuf → ExpandBuf
push_quoted_param_null buf =
    push_raw_byte ctlnul (record buf {
      had_quoted_null = true;
      param_nulls = buf.param_nulls ++ length buf.bytes ∷ [];
    })

abbrev pub push_field_sep : ExpandBuf → ExpandBuf
push_field_sep buf = push_raw_byte ctlfield buf

unfoldable pub push_literal_slice : Text → ExpandBuf → ExpandBuf
unfolding push_literal
push_literal_slice [] buf = buf
push_literal_slice (b ∷ s) buf = push_literal_slice s (push_literal b buf)

unfoldable pub push_quoted_slice : Text → ExpandBuf → ExpandBuf
unfolding push_quoted
push_quoted_slice [] buf = buf
push_quoted_slice (b ∷ s) buf = push_quoted_slice s (push_quoted b buf)

unfoldable pub extend_from : ExpandBuf → ExpandBuf → ExpandBuf
extend_from other buf = record {
  bytes = buf.bytes ++ other.bytes;
  param_nulls = buf.param_nulls ++ map (λ pos. length buf.bytes + pos) other.param_nulls;
  had_quoted_null = buf.had_quoted_null || other.had_quoted_null;
  has_dollar_at = buf.has_dollar_at || other.has_dollar_at;
  quoted_dollar_at = buf.quoted_dollar_at || other.quoted_dollar_at;
}

-- a byte that is not escaped, in front of what is made of the rest
abbrev pub keep_byte : ℕ → Text → Text
keep_byte b out = if b == ctlnul || b == ctlfield then out else b ∷ out

-- The loop, as a recursion on the bytes from `i` on.
unfoldable pub dequote_bytes : Text → Text
dequote_bytes [] = []
dequote_bytes (b ∷ []) = keep_byte b []
dequote_bytes (b ∷ c ∷ []) =
    let rest = dequote_bytes (c ∷ []) in if b == ctlesc then c ∷ [] else keep_byte b rest
dequote_bytes (b ∷ c ∷ d ∷ s) =
    let raw = d ∷ dequote_bytes s in
    let escaped = c ∷ dequote_bytes (d ∷ s) in
    let rest = dequote_bytes (c ∷ d ∷ s) in
    if b == ctlesc && c == ctlraw then raw else if b == ctlesc then escaped else keep_byte b rest

abbrev pub is_quoted_null : Text → Bool
is_quoted_null (b ∷ []) = b == ctlnul
is_quoted_null _ = false
