-- ===== src/Interp/AstEq/Types.antt =====
-- `typeEq`, `typePtrEq`, `typeListEq`, `closureParamListEq` and `constValueEq` of
-- compiler/stage0/internal/interp/ast_eq.go.
use dast_lang.Ast.Values.{
  const_char, ConstValue, const_int, const_bool, const_string, const_float, QuoteKind,
  quote_expr_kind, quote_stmt_kind, quote_item_kind, quote_block_kind,
}
use dast_lang.Base.{
  both, ap, all_six, all_three, arith, ◌≡◌, refl, Bool, true, false, ◌&&◌, ◌==◌, ==_iff, runes_eq,
  runes_eq_iff, List, [], ◌∷◌,
}
use text.Mathlib.Text.{◌==◌ as str_eq}
use text.Mathlib.TextEquality.{eq_iff}
use text.Mathlib.TextPositions.{eq_refl}
use dast_lang.Ast.Types.{Ty, ty, OptTy, no_type, some_type, Tys, no_types, cons_type, ClosureParam}
use dast_lang.Ir.Fold.{bool_eq}

unfoldable mutual
  pub type_eq : Ty → Ty → Bool
  type_eq (ty n r m a t e es as_) (ty n' r' m' a' t' e' es' as_') =
      str_eq n n'
      && bool_eq r r'
      && bool_eq m m'
      && bool_eq a a'
      && bool_eq t t'
      && type_ptr_eq e e'
      && type_list_eq es es'
      && type_list_eq as_ as_'

  pub type_ptr_eq : OptTy → OptTy → Bool
  type_ptr_eq no_type no_type = true
  type_ptr_eq (some_type a) (some_type b) = type_eq a b
  type_ptr_eq _ _ = false

  pub type_list_eq : Tys → Tys → Bool
  type_list_eq no_types no_types = true
  type_list_eq (cons_type a as_) (cons_type b bs) = type_eq a b && type_list_eq as_ bs
  type_list_eq _ _ = false

unfoldable pub closure_param_list_eq : List ClosureParam → List ClosureParam → Bool
unfolding type_ptr_eq
closure_param_list_eq [] [] = true
closure_param_list_eq (a ∷ as_) (b ∷ bs) =
    str_eq a.name b.name && type_ptr_eq a.type b.type && closure_param_list_eq as_ bs
closure_param_list_eq _ _ = false

-- The switch has no case for a character: two of them are never equal.
unfoldable pub const_value_eq : ConstValue → ConstValue → Bool
unfolding runes_eq
const_value_eq (const_int a) (const_int b) = a == b
const_value_eq (const_bool a) (const_bool b) = bool_eq a b
const_value_eq (const_string a) (const_string b) = runes_eq a b
const_value_eq (const_float a) (const_float b) = str_eq a b
const_value_eq _ _ = false

unfoldable pub quote_kind_eq : QuoteKind → QuoteKind → Bool
quote_kind_eq quote_expr_kind quote_expr_kind = true
quote_kind_eq quote_stmt_kind quote_stmt_kind = true
quote_kind_eq quote_item_kind quote_item_kind = true
quote_kind_eq quote_block_kind quote_block_kind = true
quote_kind_eq _ _ = false

pub bool_eq_sound : (a b : Bool) → bool_eq a b ≡ true → a ≡ b
bool_eq_sound true b h = ground arith
bool_eq_sound false b h = ground arith

mutual
  unfolding type_eq

  pub type_eq_sound : (a b : Ty) → type_eq a b ≡ true → a ≡ b
  type_eq_sound (ty n r m a t e es xs) (ty n' r' m' a' t' e' es' xs') h =
      let (k, p, q) = all_three h in
      let (u, v, w, x, y, z) = all_six k in
      cc (
        (eq_iff n n').0 u,
        bool_eq_sound r r' v,
        bool_eq_sound m m' w,
        bool_eq_sound a a' x,
        bool_eq_sound t t' y,
        type_ptr_eq_sound e e' z,
        type_list_eq_sound es es' p,
        type_list_eq_sound xs xs' q,
      )

  pub type_ptr_eq_sound : (a b : OptTy) → type_ptr_eq a b ≡ true → a ≡ b
  type_ptr_eq_sound no_type no_type h = refl
  type_ptr_eq_sound (some_type a) (some_type b) h = ap some_type (type_eq_sound a b h)
  type_ptr_eq_sound _ _ h = cc

  pub type_list_eq_sound : (a b : Tys) → type_list_eq a b ≡ true → a ≡ b
  type_list_eq_sound no_types no_types h = refl
  type_list_eq_sound (cons_type a xs) (cons_type b ys) h =
      let (p, q) = both h in cc (type_eq_sound a b p, type_list_eq_sound xs ys q)
  type_list_eq_sound _ _ h = cc

pub closure_param_list_eq_sound :
    (a b : List ClosureParam) → closure_param_list_eq a b ≡ true → a ≡ b
unfolding closure_param_list_eq
closure_param_list_eq_sound [] [] h = refl
closure_param_list_eq_sound (a ∷ xs) (b ∷ ys) h =
    let (p, q, r) = all_three h in
    cc (
      (eq_iff a.name b.name).0 p,
      type_ptr_eq_sound a.type b.type q,
      closure_param_list_eq_sound xs ys r,
    )
closure_param_list_eq_sound _ _ h = cc

pub const_value_eq_sound : (a b : ConstValue) → const_value_eq a b ≡ true → a ≡ b
unfolding const_value_eq
const_value_eq_sound (const_int a) (const_int b) h = ground (arith, ==_iff a b)
const_value_eq_sound (const_bool a) (const_bool b) h = ground (arith, bool_eq_sound a b h)
const_value_eq_sound (const_string a) (const_string b) h = ground (arith, runes_eq_iff a b)
const_value_eq_sound (const_float a) (const_float b) h = ground (arith, eq_iff a b)
const_value_eq_sound _ _ h = cc

pub quote_kind_eq_sound : (a b : QuoteKind) → quote_kind_eq a b ≡ true → a ≡ b
unfolding quote_kind_eq
quote_kind_eq_sound quote_expr_kind quote_expr_kind h = refl
quote_kind_eq_sound quote_stmt_kind quote_stmt_kind h = refl
quote_kind_eq_sound quote_item_kind quote_item_kind h = refl
quote_kind_eq_sound quote_block_kind quote_block_kind h = refl
quote_kind_eq_sound _ _ h = cc

pub bool_eq_self : (a : Bool) → bool_eq a a ≡ true
bool_eq_self true = refl
bool_eq_self false = refl

mutual
  unfolding type_eq

  pub type_eq_self : (a : Ty) → type_eq a a ≡ true
  type_eq_self (ty n r m a t e es xs) =
      rw
        (
          eq_refl n,
          bool_eq_self r,
          bool_eq_self m,
          bool_eq_self a,
          bool_eq_self t,
          type_ptr_eq_self e,
          type_list_eq_self es,
          type_list_eq_self xs,
        )
        refl

  pub type_ptr_eq_self : (a : OptTy) → type_ptr_eq a a ≡ true
  type_ptr_eq_self no_type = refl
  type_ptr_eq_self (some_type a) = type_eq_self a

  pub type_list_eq_self : (a : Tys) → type_list_eq a a ≡ true
  type_list_eq_self no_types = refl
  type_list_eq_self (cons_type a xs) = rw (type_eq_self a, type_list_eq_self xs) refl

pub closure_param_list_eq_self : (a : List ClosureParam) → closure_param_list_eq a a ≡ true
unfolding closure_param_list_eq
closure_param_list_eq_self [] = refl
closure_param_list_eq_self (a ∷ xs) =
    rw (eq_refl a.name, type_ptr_eq_self a.type, closure_param_list_eq_self xs) refl

abbrev pub is_not_char : ConstValue → Bool
is_not_char (const_char _) = false
is_not_char _ = true

pub const_value_eq_self : (a : ConstValue) → const_value_eq a a ≡ is_not_char a
unfolding const_value_eq
const_value_eq_self (const_int a) = (==_iff a a).1 refl
const_value_eq_self (const_bool a) = bool_eq_self a
const_value_eq_self (const_string a) = (runes_eq_iff a a).1 refl
const_value_eq_self (const_float a) = eq_refl a
const_value_eq_self (const_char a) = refl

pub quote_kind_eq_self : (a : QuoteKind) → quote_kind_eq a a ≡ true
unfolding quote_kind_eq
quote_kind_eq_self quote_expr_kind = refl
quote_kind_eq_self quote_stmt_kind = refl
quote_kind_eq_self quote_item_kind = refl
quote_kind_eq_self quote_block_kind = refl
