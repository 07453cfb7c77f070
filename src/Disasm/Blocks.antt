-- ===== src/Disasm/Blocks.antt =====
-- Operators that open and close blocks.
use sea_pkg.Base.{
  ℕ, suc, ◌<◌, ◌≤◌, ◌≡◌, refl, sym, ap, ◌∙◌, arith, List, [], ◌∷◌, Bool, true, false, Option, some,
  none, if◌then◌else◌,
}
use sea_pkg.Base.{length, get_elem?, get_elem?-bound, set, length-set, if_both, ◌⊎◌, inl, inr}
use sea_pkg.Base.Outcome.{Fault}
use mathlib.Core.Bool.{true≢false}
use sea_pkg.Base.Words.{sub}
use mathlib.Core.Path.{subst}
use sea_pkg.Disasm.{StackInfo, BlockInfo, Instr, Kind, else_, end_, State, top, found_at}
use sea_pkg.Disasm.Effects.{read_int32, below_minus_one}
use sea_pkg.Disasm.Cases.{
  pop_index, instr_at, block_of, parent_depth, unwound, count_result, pop_list, open_else,
  closing_info, note_close, disassemble_close, disassemble_open,
}
use sea_pkg.Disasm.Body.{closes}
use sea_pkg.Disasm.Trace.{Nested, Nested-set, noted, Passes, Step}
use sea_pkg.Disasm.Invariant.{
  Post, Post-bind, Post-found, Matched-eq, Matched-Busy, Shape, Reached, Inv, InvOf, top-Any,
  read_int32-Inv,
}

-- What a round has made of the instruction and the state: `n` reachable blocks were open before.
abbrev pub Moved : Kind → ℕ → ℕ → ℕ → ℕ → Instr × State → Type 0
Moved kd op n p b (i, d) =
    (n' : ℕ) × (i.op ≡ op)
    × (length d.code ≡ p)
    × Nested d.code 0 0 n
    × Passes kd i p n n'
    × Shape d.block_polymorphic_ops (length d.block_indices) n'
    × (length d.reader ≤ b)

Passes-by :
    (kd : Kind) (i : Instr) (p n n' m : ℕ)
    → Step kd i p n m
    → ((i.unreachable ≡ true) × (n' ≡ n)) ⊎ ((i.unreachable ≡ false) × (n' ≡ m))
    → Passes kd i p n n'
Passes-by kd i p n n' m s (inl h) = inl h
Passes-by kd i p n n' m s (inr (u, e)) = inr (u, subst (λ x. Step kd i p n x) (sym e) s)

-- A new block around the instructions that follow.
open-Shape :
    (kd : Kind) (u : Bool) (polys : List (List ℕ)) (k n : ℕ)
    → Reached kd u polys k n
    → Shape polys k n
    → (n' : ℕ) × (((u ≡ true) × (n' ≡ n)) ⊎ ((u ≡ false) × (n' ≡ suc n)))
      × Shape (if u then polys else [] ∷ polys) (suc k) n'
open-Shape kd true polys k n (busy, _) (s, l, m) =
    (n, inl (refl, refl), (s, omega arith, Matched-Busy polys n (suc k) busy))
open-Shape kd false polys k n e (s, l, m) =
    (suc n, inr (refl, refl), (ap suc s, omega (arith, e), ap suc e))

pub disassemble_open-Moved :
    (kd : Kind) (instr : Instr) (n p b : ℕ) (d : State)
    → ((i : Instr) → Step kd i p n (suc n))
    → closes kd ≡ false
    → Inv kd instr.unreachable n p b d
    → Post (Moved kd instr.op n p b) (disassemble_open instr d)
unfolding disassemble_open
disassemble_open-Moved kd instr n p b d step c inv =
    Post-bind (InvOf kd instr.unreachable n p b) _ (read_int32 d) _
      (read_int32-Inv kd instr.unreachable n p b d inv)
      λ (sig, d') (t, l, s, r, m).
        Post-bind _ _ (top d') _ (top-Any kd instr.unreachable n p b d') λ depth _.
          let (n', moves, shape) =
            open-Shape kd instr.unreachable d'.block_polymorphic_ops (length d'.block_indices) n r
              s in
          (n', refl, l, t, Passes-by kd _ p n n' (suc n) (step _) moves, shape, m)

-- The block that `end` and `else` close, and the block that `else` opens again.
close-Shape :
    (kd : Kind) (u : Bool) (polys : List (List ℕ)) (k n : ℕ)
    → closes kd ≡ true
    → Reached kd u polys (suc k) n
    → Shape polys (suc k) n
    → Post
        (λ polys'.
          (n' : ℕ) × (((u ≡ true) × (n' ≡ n)) ⊎ ((u ≡ false) × (n ≡ suc n')))
          × Shape polys' k n'
          × Shape (if u then polys' else [] ∷ polys') (suc k) n)
        (pop_list u polys)
close-Shape kd true polys k n c (busy, inl other) s = absurd (true≢false (sym c ∙ other))
close-Shape kd true polys k n c (busy, inr l) (s, _, m) =
    (n, inl (refl, refl), (s, omega arith, Matched-Busy polys n k busy), (s, omega arith, m))
close-Shape kd false [] k n c e s = tt
close-Shape kd false (ops ∷ polys) k n c e (s, _, m) =
    let size : length polys ≡ suc k = omega (arith, s, e) in
    (
      k,
      inr (refl, e),
      (size, omega arith, Matched-eq polys k k refl),
      (omega (arith, size, e), omega (arith, e), e),
    )

pop_index-Found : (xs : List ℕ) → Post (λ (r : ℕ × List ℕ). xs ≡ r.0 ∷ r.1) (pop_index xs)
pop_index-Found [] = tt
pop_index-Found (x ∷ xs) = refl

unwound-Any : (d : State) (cur prev sig : ℕ) → Post (λ _. Unit {0}) (unwound d cur prev sig)
unfolding unwound
unwound-Any d cur prev sig =
    if_both (Post (λ _. Unit {0})) d.last_op_return tt
      (if_both (Post (λ _. Unit {0})) (below_minus_one (sub 64 cur prev)) tt tt)

note_close-else_if_index :
    (e : Bool) (index cur : ℕ) (info : BlockInfo)
    → (note_close e index cur info).else_if_index ≡ info.else_if_index
unfolding note_close
note_close-else_if_index true index cur info = refl
note_close-else_if_index false index cur info = refl

pub Post-found-Any : {A : Type 0} (f : Fault) (o : Option A) → Post (λ _. Unit {0}) (found_at f o)
Post-found-Any f none = tt
Post-found-Any f (some a) = tt

-- The instructions after `end` or `else` has noted its position at the operator `index`.
module _ (n p : ℕ) (d : State) (index : ℕ) (starting : Instr) (info : BlockInfo) where
  noted-Nested :
      (e : Bool) (stack : StackInfo)
      → Nested d.code 0 0 n
      → get_elem? d.code index ≡ some starting
      → starting.block ≡ some info
      → Nested
          (set d.code index (noted starting (note_close e index (length d.code) info) stack))
          0
          0
          n
  noted-Nested e stack t g h =
      Nested-set d.code index starting 0 0 n info (note_close e index (length d.code) info) stack g
        h (note_close-else_if_index e index (length d.code) info) t

closes-Step :
    (kd : Kind) (i : Instr) (p n n' : ℕ)
    → (n ≡ suc n' → Step kd i p n n')
    → ((i.unreachable ≡ true) × (n' ≡ n)) ⊎ ((i.unreachable ≡ false) × (n ≡ suc n'))
    → Passes kd i p n n'
closes-Step kd i p n n' s (inl h) = inl h
closes-Step kd i p n n' s (inr (u, e)) = inr (u, s e)

else-Passes :
    (i : Instr) (info : BlockInfo) (p n n' : ℕ)
    → i.block ≡ some info
    → info.else_if_index < p
    → ((i.unreachable ≡ true) × (n' ≡ n)) ⊎ ((i.unreachable ≡ false) × (n ≡ suc n'))
    → Passes else_ i p n n
else-Passes i info p n n' e l (inl (u, _)) = inl (u, refl)
else-Passes i info p n n' e l (inr (u, s)) = inr (u, (info, e, l, omega (arith, s), refl))

pub disassemble_end-Moved :
    (instr : Instr) (n p b : ℕ) (d : State)
    → Inv end_ instr.unreachable n p b d
    → Post (Moved end_ instr.op n p b) (disassemble_close false instr d)
unfolding disassemble_close count_result instr_at block_of parent_depth closing_info open_else
disassemble_end-Moved instr n p b d (t, l, s, r, m) =
    let u = instr.unreachable in
    Post-bind _ _ (top d) _ (top-Any end_ u n p b d) λ cur _.
      Post-bind _ _ (pop_index d.block_indices) _ (pop_index-Found d.block_indices)
        λ (index, rest) e.
          Post-bind _ _ (instr_at index d) _ (Post-found _ (get_elem? d.code index)) λ starting g.
            Post-bind _ _ (block_of starting) _ (Post-found _ starting.block) λ info h.
              Post-bind _ _ (parent_depth 0 d) _ (Post-found-Any _ (get_elem? d.stack_depths 1))
                λ prev _.
                  Post-bind _ _ (unwound d cur prev info.signature) _
                    (unwound-Any d cur prev info.signature)
                    λ stack _.
                      let k : length d.block_indices ≡ suc (length rest) = ap length e in
                      let kept = noted-Nested n p d index starting info false stack t g h in
                      Post-bind _ _ (pop_list u d.block_polymorphic_ops) _
                        (close-Shape end_ u d.block_polymorphic_ops (length rest) n refl
                          (subst (λ x. Reached end_ u d.block_polymorphic_ops x n) k r)
                          (subst (λ x. Shape d.block_polymorphic_ops x n) k s))
                        λ polys (n', moves, closed, opened). (
                          n',
                          refl,
                          length-set d.code index
                                (noted starting (note_close false index (length d.code) info) stack)
                              ∙ l,
                          kept,
                          closes-Step end_ (noted instr (closing_info false index info) stack) p n
                              n' (λ q. (stack, refl, q)) moves,
                          closed,
                          m,
                        )

pub disassemble_else-Moved :
    (instr : Instr) (n p b : ℕ) (d : State)
    → Inv else_ instr.unreachable n p b d
    → Post (Moved else_ instr.op n p b) (disassemble_close true instr d)
unfolding disassemble_close count_result instr_at block_of parent_depth closing_info open_else
disassemble_else-Moved instr n p b d (t, l, s, r, m) =
    let u = instr.unreachable in
    Post-bind _ _ (top d) _ (top-Any else_ u n p b d) λ cur _.
      Post-bind _ _ (pop_index d.block_indices) _ (pop_index-Found d.block_indices)
        λ (index, rest) e.
          Post-bind _ _ (instr_at index d) _ (Post-found _ (get_elem? d.code index)) λ starting g.
            Post-bind _ _ (block_of starting) _ (Post-found _ starting.block) λ info h.
              Post-bind _ _ (parent_depth 0 d) _ (Post-found-Any _ (get_elem? d.stack_depths 1))
                λ prev _.
                  Post-bind _ _ (unwound d cur prev info.signature) _
                    (unwound-Any d cur prev info.signature)
                    λ stack _.
                      let k : length d.block_indices ≡ suc (length rest) = ap length e in
                      let kept = noted-Nested n p d index starting info true stack t g h in
                      Post-bind _ _ (pop_list u d.block_polymorphic_ops) _
                        (close-Shape else_ u d.block_polymorphic_ops (length rest) n refl
                          (subst (λ x. Reached else_ u d.block_polymorphic_ops x n) k r)
                          (subst (λ x. Shape d.block_polymorphic_ops x n) k s))
                        λ polys (n', moves, closed, opened). (
                          n,
                          refl,
                          length-set d.code index
                                (noted starting (note_close true index (length d.code) info) stack)
                              ∙ l,
                          kept,
                          else-Passes (noted instr (closing_info true index info) stack)
                              (closing_info true index info) p n n' refl
                              (omega (arith, get_elem?-bound d.code index g, l)) moves,
                          opened,
                          m,
                        )
