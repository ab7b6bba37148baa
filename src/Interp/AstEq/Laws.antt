-- ===== src/Interp/AstEq/Laws.antt =====
-- The parts of items that compiler/stage0/internal/interp/ast_eq.go compares, against their equality.
use dast_lang.Base.{
  arith, ◌≡◌, refl, Bool, true, ◌&&◌, ==_iff, List, [], ◌∷◌, both, all_three, all_four, all_seven,
}
use text.Mathlib.TextEquality.{eq_iff}
use text.Mathlib.TextPositions.{eq_refl}
use dast_lang.Ast.Items.{
  Visibility, vis_private, vis_public, TypeParam, Param, FieldDef, VariantDef, Function,
  TraitMethod,
}
use dast_lang.Interp.AstEq.Items.{
  list_eq, visibility_eq, type_param_eq, param_eq, field_def_eq, variant_def_eq, function_eq,
  trait_method_eq,
}
use dast_lang.Interp.AstEq.Self.{ast_block_eq_self, block_has_no_char}
use dast_lang.Interp.AstEq.Sound.{ast_block_eq_sound}
use dast_lang.Interp.AstEq.Types.{
  bool_eq_sound, type_eq_sound, type_ptr_eq_sound, type_list_eq_sound, bool_eq_self, type_eq_self,
  type_ptr_eq_self, type_list_eq_self,
}

module _ {ℓ} {A : Type ℓ} (eq : A → A → Bool) where
  pub list_eq_sound :
      ((a b : A) → eq a b ≡ true → a ≡ b) → (xs ys : List A) → list_eq eq xs ys ≡ true → xs ≡ ys
  unfolding list_eq
  list_eq_sound sound [] [] h = refl
  list_eq_sound sound (a ∷ xs) (b ∷ ys) h =
      let (p, q) = both h in cc (sound a b p, list_eq_sound sound xs ys q)
  list_eq_sound sound _ _ h = cc

  abbrev pub all_self : (A → Bool) → List A → Bool
  all_self p [] = true
  all_self p (a ∷ xs) = p a && all_self p xs

  pub list_eq_self :
      (p : A → Bool) → ((a : A) → eq a a ≡ p a) → (xs : List A) → list_eq eq xs xs ≡ all_self p xs
  unfolding list_eq
  list_eq_self p self [] = refl
  list_eq_self p self (a ∷ xs) = rw (self a, list_eq_self p self xs) refl

  pub list_eq-true : ((a : A) → eq a a ≡ true) → (xs : List A) → list_eq eq xs xs ≡ true
  unfolding list_eq
  list_eq-true self [] = refl
  list_eq-true self (a ∷ xs) = rw (self a, list_eq-true self xs) refl

pub visibility_eq_sound : (a b : Visibility) → visibility_eq a b ≡ true → a ≡ b
unfolding visibility_eq
visibility_eq_sound vis_private vis_private h = refl
visibility_eq_sound vis_public vis_public h = refl
visibility_eq_sound _ _ h = cc

pub visibility_eq_self : (a : Visibility) → visibility_eq a a ≡ true
unfolding visibility_eq
visibility_eq_self vis_private = refl
visibility_eq_self vis_public = refl

pub type_param_eq_sound : (a b : TypeParam) → type_param_eq a b ≡ true → a ≡ b
unfolding type_param_eq
type_param_eq_sound a b h =
    let (p, q) = both h in cc ((eq_iff a.name b.name).0 p, type_list_eq_sound a.bounds b.bounds q)

pub type_param_eq_self : (a : TypeParam) → type_param_eq a a ≡ true
unfolding type_param_eq
type_param_eq_self a = rw (eq_refl a.name, type_list_eq_self a.bounds) refl

pub param_eq_sound : (a b : Param) → param_eq a b ≡ true → a ≡ b
unfolding param_eq
param_eq_sound a b h =
    let (p, q) = both h in cc ((eq_iff a.name b.name).0 p, type_eq_sound a.type b.type q)

pub param_eq_self : (a : Param) → param_eq a a ≡ true
unfolding param_eq
param_eq_self a = rw (eq_refl a.name, type_eq_self a.type) refl

pub field_def_eq_sound : (a b : FieldDef) → field_def_eq a b ≡ true → a ≡ b
unfolding field_def_eq
field_def_eq_sound a b h =
    let (p, q) = both h in cc ((eq_iff a.name b.name).0 p, type_eq_sound a.type b.type q)

pub field_def_eq_self : (a : FieldDef) → field_def_eq a a ≡ true
unfolding field_def_eq
field_def_eq_self a = rw (eq_refl a.name, type_eq_self a.type) refl

pub variant_def_eq_sound : (a b : VariantDef) → variant_def_eq a b ≡ true → a ≡ b
unfolding variant_def_eq
variant_def_eq_sound a b h =
    let (p, q, r, s) = all_four h in
    cc (
      (eq_iff a.name b.name).0 p,
      bool_eq_sound a.has_value b.has_value q,
      (==_iff a.value b.value).0 r,
      type_ptr_eq_sound a.payload b.payload s,
    )

pub variant_def_eq_self : (a : VariantDef) → variant_def_eq a a ≡ true
unfolding variant_def_eq
variant_def_eq_self a =
    rw
      (
        eq_refl a.name,
        bool_eq_self a.has_value,
        (==_iff a.value a.value).1 refl,
        type_ptr_eq_self a.payload,
      )
      refl

pub function_eq_sound : (a b : Function) → function_eq a b ≡ true → a ≡ b
unfolding function_eq
function_eq_sound a b h =
    let (p, q, r, s, t, u, v) = all_seven h in
    cc (
      (eq_iff a.name b.name).0 p,
      list_eq_sound type_param_eq type_param_eq_sound a.type_params b.type_params q,
      list_eq_sound param_eq param_eq_sound a.params b.params r,
      type_ptr_eq_sound a.return_type b.return_type s,
      ast_block_eq_sound a.body b.body t,
      visibility_eq_sound a.vis b.vis u,
      bool_eq_sound a.is_macro b.is_macro v,
    )

abbrev pub function_has_no_char : Function → Bool
function_has_no_char f = block_has_no_char f.body

pub function_eq_self : (f : Function) → function_eq f f ≡ function_has_no_char f
unfolding function_eq
function_eq_self f =
    rw
      (
        eq_refl f.name,
        list_eq-true type_param_eq type_param_eq_self f.type_params,
        list_eq-true param_eq param_eq_self f.params,
        type_ptr_eq_self f.return_type,
        ast_block_eq_self f.body,
        visibility_eq_self f.vis,
        bool_eq_self f.is_macro,
      )
      (ground arith)

pub trait_method_eq_sound : (a b : TraitMethod) → trait_method_eq a b ≡ true → a ≡ b
unfolding trait_method_eq
trait_method_eq_sound a b h =
    let (p, q, r) = all_three h in
    cc (
      (eq_iff a.name b.name).0 p,
      list_eq_sound param_eq param_eq_sound a.params b.params q,
      type_ptr_eq_sound a.return_type b.return_type r,
    )

pub trait_method_eq_self : (a : TraitMethod) → trait_method_eq a a ≡ true
unfolding trait_method_eq
trait_method_eq_self a =
    rw
      (eq_refl a.name, list_eq-true param_eq param_eq_self a.params, type_ptr_eq_self a.return_type)
      refl
