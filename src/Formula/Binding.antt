-- ===== src/Formula/Binding.antt =====
-- formula.rs: how binding, opening and substitution compose.
use naome.Prelude.{
  ℕ, ◌+◌, ◌-◌, ◌≡◌, refl, sym, ◌∙◌, ap, fun_ext, Option, none, some, List, [], ◌∷◌, arith, length,
}
use naome.Prelude.Map
use naome.Prelude.Map.{Map, get-insert}
use naome.Node
use naome.Node.{Node, Variable, bound, free, FreeVariable}
use naome.Formula
use naome.Formula.{Formula}

abbrev pub Binding : Type 0
Binding = FreeVariable → Option ℕ

-- first `g`; where it does not bind, `h` with its indices `k` higher
abbrev pub or_else : Option ℕ → ℕ → Option ℕ → Option ℕ
or_else (some i) k o = some i
or_else none k (some j) = some (j + k)
or_else none k none = none

bind_variable-bind_variable :
    (v : Variable) (d e k : ℕ) (g h : Binding)
    → e ≡ d + k
    → Node.bind_variable (Node.bind_variable v d g) e h
      ≡ Node.bind_variable v d (λ x. or_else (g x) k (h x))
unfolding Node.bind_variable
bind_variable-bind_variable (bound i) d e k g h q = refl
bind_variable-bind_variable (free x) d e k g h q = ground arith

pub bind_free-bind_free :
    (n : Node) (d e k : ℕ) (g h : Binding)
    → e ≡ d + k
    → Node.bind_free (Node.bind_free n d g) e h ≡ Node.bind_free n d (λ x. or_else (g x) k (h x))
unfolding Node.bind_free
bind_free-bind_free (Node.equal a b) d e k g h q =
    rw (bind_variable-bind_variable a d e k g h q, bind_variable-bind_variable b d e k g h q)
bind_free-bind_free (Node.member a b) d e k g h q =
    rw (bind_variable-bind_variable a d e k g h q, bind_variable-bind_variable b d e k g h q)
bind_free-bind_free (Node.not n) d e k g h q = ap Node.not (bind_free-bind_free n d e k g h q)
bind_free-bind_free (Node.implies l r) d e k g h q =
    rw (bind_free-bind_free l d e k g h q, bind_free-bind_free r d e k g h q)
bind_free-bind_free (Node.for_all n) d e k g h q =
    ap Node.for_all (bind_free-bind_free n (d + 1) (e + 1) k g h (omega arith))

-- `for_all` for each variable, the last one innermost
unfoldable pub for_all_each : List FreeVariable → Formula → Formula
for_all_each [] body = body
for_all_each (v ∷ vs) body = Formula.for_all v (for_all_each vs body)

-- the index of a variable under the binders of `vs`, the last of equal ones
binder : List FreeVariable → Binding
binder [] x = none
binder (v ∷ vs) x = or_else (binder vs x) (length vs) (Formula.only v x)

-- the entry of the loop's map where `binder` has none
abbrev else_get : Option ℕ → Option ℕ → Option ℕ
else_get (some i) o = some i
else_get none o = o

get-binders_from :
    (vs : List FreeVariable) (c p : ℕ) (m : Map ℕ) (x : ℕ)
    → c ≡ p + length vs
    → Map.get x (Formula.binders_from c p vs m) ≡ else_get (binder vs x) (Map.get x m)
unfolding Formula.binders_from binder
get-binders_from [] c p m x e = refl
get-binders_from (v ∷ vs) c p m x e = ground (
  arith,
  get-binders_from vs c (p + 1) (Map.insert v (c - p - 1) m) x,
  get-insert v x (c - p - 1) m,
)

wrap-for_all :
    (vs : List FreeVariable) (n : Node)
    → Formula.wrap vs (Node.for_all n) ≡ Node.for_all (Formula.wrap vs n)
unfolding Formula.wrap
wrap-for_all [] n = refl
wrap-for_all (v ∷ vs) n = wrap-for_all vs (Node.for_all n)

bind_free-wrap :
    (vs : List FreeVariable) (n : Node) (d e : ℕ) (g : Binding)
    → e ≡ d + length vs
    → Node.bind_free (Formula.wrap vs n) d g ≡ Formula.wrap vs (Node.bind_free n e g)
unfolding Formula.wrap Node.bind_free
bind_free-wrap [] n d e g q = let q' : d ≡ e = omega arith in rw q'
bind_free-wrap (v ∷ vs) n d e g q =
    rw wrap-for_all
      (ap Node.for_all (bind_free-wrap vs n (d + 1) e g (omega arith)) ∙ sym (wrap-for_all vs _))

bind_variable-none : (v : Variable) (d : ℕ) → Node.bind_variable v d (λ _. none) ≡ v
unfolding Node.bind_variable
bind_variable-none (bound i) d = refl
bind_variable-none (free x) d = refl

bind_free-none : (n : Node) (d : ℕ) → Node.bind_free n d (λ _. none) ≡ n
unfolding Node.bind_free
bind_free-none (Node.equal a b) d = rw (bind_variable-none a d, bind_variable-none b d)
bind_free-none (Node.member a b) d = rw (bind_variable-none a d, bind_variable-none b d)
bind_free-none (Node.not n) d = ap Node.not (bind_free-none n d)
bind_free-none (Node.implies l r) d = rw (bind_free-none l d, bind_free-none r d)
bind_free-none (Node.for_all n) d = ap Node.for_all (bind_free-none n (d + 1))

for_all_each-wrap :
    (vs : List FreeVariable) (body : Formula)
    → for_all_each vs body ≡ Formula.wrap vs (Node.bind_free body 0 (binder vs))
unfolding for_all_each Formula.wrap binder Formula.for_all
for_all_each-wrap [] body = sym (bind_free-none body 0)
for_all_each-wrap (v ∷ vs) body =
    ap (λ n. Node.for_all (Node.bind_free n 0 (Formula.only v))) (for_all_each-wrap vs body)
    ∙ ap Node.for_all (bind_free-wrap vs _ 0 (length vs) (Formula.only v) (omega arith))
    ∙ sym (wrap-for_all vs _)
    ∙ ap (λ n. Formula.wrap vs (Node.for_all n))
        (bind_free-bind_free body 0 (length vs) (length vs) (binder vs) (Formula.only v)
          (omega arith))

else_get-none : (o : Option ℕ) → else_get o none ≡ o
else_get-none none = refl
else_get-none (some i) = refl

all_binders :
    (vs : List FreeVariable) (x : FreeVariable)
    → Map.get x (Formula.binders_from (length vs) 0 vs []) ≡ binder vs x
unfolding Map.get
all_binders vs x =
    get-binders_from vs (length vs) 0 [] x (omega arith) ∙ else_get-none (binder vs x)

-- `for_all_many` binds all its variables in one traversal; the result is that of one `for_all` for
-- each variable, the last one innermost, repeated variables included.
pub for_all_many-eq-for_all_each :
    (vs : List FreeVariable) (body : Formula) → Formula.for_all_many vs body ≡ for_all_each vs body
unfolding Formula.for_all_many for_all_each
for_all_many-eq-for_all_each [] body = refl
for_all_many-eq-for_all_each (v ∷ vs) body =
    ap (λ g. Formula.wrap (v ∷ vs) (Node.bind_free body 0 g)) (fun_ext (all_binders (v ∷ vs)))
    ∙ sym (for_all_each-wrap (v ∷ vs) body)
