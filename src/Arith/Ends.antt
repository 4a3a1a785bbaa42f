-- ===== src/Arith/Ends.antt =====
-- Where the parts of a printed expression end in its text.
use cherubsh.Base.{
  ℕ, ◌+◌, ◌≡◌, Text, [], ◌∷◌, ◌++◌, drop, drop_past, length, to_string, codes, Bool, true, false,
  leb,
}
use cherubsh.Arith.Printed.{
  BinOp, UnOp, keep, negate, invert, deny, un_text, Expr, const, unary, binary, op_text, print_at,
  op_level, enclose,
}

-- where a printed expression ends that begins at `p`
abbrev pub past_enclosed : Bool → (ℕ → ℕ) → ℕ → ℕ
past_enclosed true inner p = inner (p + 1) + 1
past_enclosed false inner p = inner p

abbrev pub past : ℕ → Expr → ℕ → ℕ
past i (const n) p = p + length (to_string n)
past i (unary op a) p = past 0 a (p + 1 + 1 + 1) + 1
past i (binary op a b) p =
    past_enclosed (leb i (op_level op))
      (λ q. past (op_level op) b (past (op_level op) a q + 1 + length (op_text op) + 1)) p

pub drop_operator :
    (src : Text) (op : BinOp) (q : ℕ) (rest : Text)
    → drop q src ≡ 32 ∷ op_text op ++ 32 ∷ rest
    → drop (q + 1 + length (op_text op)) src ≡ 32 ∷ rest
drop_operator src op q rest e =
    drop_past (op_text op) (32 ∷ rest) (q + 1) src
      (drop_past (32 ∷ []) (op_text op ++ 32 ∷ rest) q src e)

pub drop_blank :
    (src : Text) (op : UnOp) (q : ℕ) (rest : Text)
    → drop q src ≡ un_text op ++ 32 ∷ rest
    → drop (q + 1) src ≡ 32 ∷ rest
drop_blank src keep q rest e = drop_past (codes "+") _ q src e
drop_blank src negate q rest e = drop_past (codes "-") _ q src e
drop_blank src invert q rest e = drop_past (codes "~") _ q src e
drop_blank src deny q rest e = drop_past (codes "!") _ q src e

pub drop_sign :
    (src : Text) (op : UnOp) (q : ℕ) (rest : Text)
    → drop q src ≡ un_text op ++ 32 ∷ rest
    → drop (q + 1 + 1) src ≡ rest
drop_sign src op q rest e = drop_past (32 ∷ []) rest (q + 1) src (drop_blank src op q rest e)

drop_enclosed :
    (src : Text) (parens : Bool) (body : Text → Text) (inner : ℕ → ℕ) (p : ℕ) (rest : Text)
    → drop p src ≡ enclose parens body rest
    → ((q : ℕ) (r : Text) → drop q src ≡ body r → drop (inner q) src ≡ r)
    → drop (past_enclosed parens inner p) src ≡ rest
drop_enclosed src true body inner p rest e h =
    let h₁ = h (p + 1) (b')' ∷ rest) (drop_past (b'(' ∷ []) _ p src e) in
    drop_past (b')' ∷ []) rest (inner (p + 1)) src h₁
drop_enclosed src false body inner p rest e h = h p rest e

pub drop_print :
    (src : Text) (i : ℕ) (e : Expr) (p : ℕ) (rest : Text)
    → drop p src ≡ print_at i e rest
    → drop (past i e p) src ≡ rest
unfolding print_at
drop_print src i (const n) p rest h = drop_past (to_string n) rest p src h
drop_print src i (unary op a) p rest h =
    let h₁ = drop_sign src op (p + 1) _ (drop_past (b'(' ∷ []) _ p src h) in
    let h₂ = drop_print src 0 a (p + 1 + 1 + 1) _ h₁ in
    drop_past (b')' ∷ []) rest (past 0 a (p + 1 + 1 + 1)) src h₂
drop_print src i (binary op a b) p rest h =
    drop_enclosed src (leb i (op_level op)) _ _ p rest h λ q r e.
      let L = op_level op in
      let h₁ = drop_print src L a q _ e in
      let h₂ = drop_operator src op (past L a q) _ h₁ in
      let o = past L a q + 1 + length (op_text op) in
      let h₃ = drop_past (32 ∷ []) _ o src h₂ in drop_print src L b (o + 1) _ h₃
