-- ===== src/Interp/Safety/Operands.antt =====
-- Reading the operands of an instruction (compiler/stage0/internal/interp/instr.go), with respect to
-- panics.

use dast_lang.Interp.Arith.{lookup_field}
use dast_lang.Base.{get_elem?, ℕ, String, Option, none, some, List, [], ◌∷◌, ◌<◌}
use dast_lang.Interp.Exec.{closure_func, closure_of, eval_fields, index_of, target_of}
use dast_lang.Interp.Machine.{found_temp, Machine, Store, get_temp, eval_operand, eval_operands}
use dast_lang.Interp.Safety.Live.{
  Safe, Any, bind-Safe, found-Safe, ok-Safe, err-Safe, LiveStore, root,
}
use dast_lang.Ir.Syntax.{Value, Operand, const, temp, ref, int, string, StructFieldInit}

pub get_temp-Safe : (temps : List Value) (t : ℕ) → Safe Any (get_temp temps t)
get_temp-Safe temps t = found_temp-Safe (get_elem? temps t)
  where
    found_temp-Safe : (o : Option Value) → Safe Any (found_temp o)
    found_temp-Safe none = err-Safe tt
    found_temp-Safe (some v) = ok-Safe tt

pub eval_operand-Safe : (m : Machine) (op : Operand) → Safe Any (eval_operand m op)
eval_operand-Safe m (const v) = ok-Safe tt
eval_operand-Safe m (temp t) = get_temp-Safe m.frame.temps t

pub eval_operands-Safe : (m : Machine) (ops : List Operand) → Safe Any (eval_operands m ops)
eval_operands-Safe m [] = ok-Safe tt
eval_operands-Safe m (op ∷ ops) =
    bind-Safe (eval_operand-Safe m op)
      (λ v _. bind-Safe (eval_operands-Safe m ops) (λ vs _. ok-Safe tt))

pub eval_fields-Safe :
    (m : Machine) (inits : List StructFieldInit) (fields : List (String × Value))
    → Safe Any (eval_fields m inits fields)
eval_fields-Safe m [] fields = ok-Safe tt
eval_fields-Safe m (f ∷ inits) fields =
    bind-Safe (eval_operand-Safe m f.src) (λ v _. eval_fields-Safe m inits _)

pub closure_of-Safe : (o : ℕ × String × List (String × Value)) → Safe Any (closure_of o)
closure_of-Safe (p, name, fields) =
    bind-Safe (closure_func-Safe (lookup_field "func" fields)) (λ func _.
      bind-Safe {P = Any} (found-Safe _ (lookup_field "env" fields) tt (λ _ _. tt))
        (λ env _. ok-Safe tt))
  where
    closure_func-Safe : (o : Option Value) → Safe Any (closure_func o)
    closure_func-Safe (some (string name)) = ok-Safe tt
    closure_func-Safe _ = record { outcome = tt }

pub index_of-Safe : (v : Value) → Safe Any (index_of v)
index_of-Safe (int i t) = ok-Safe tt
index_of-Safe _ = record { outcome = tt }

pub target_of-Safe :
    (s : Store) (v : Value) → LiveStore s → Safe (λ t. root t < s.next_cell) (target_of s v)
target_of-Safe s (ref a) live = found-Safe _ (s.heap a) tt (live.heap a)
target_of-Safe s _ live = record { outcome = tt }
