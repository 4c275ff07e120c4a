-- ===== src/Proactor/Changes.antt =====
-- Changes of contexts and operations in codes/network/proactor that keep the array of connections in
-- agreement with contexts and handlers.
use hepeng_projects.Prelude.{
  ℕ, ◌+◌, ◌<◌, ◌≡◌, ◌≢◌, refl, sym, ap, subst, ◌∙◌, Option, none, some, arith, get_or, set,
  length-set, get_or-set_self, get_or-set_ne, ltb, ℤ, pos, inl, inr, Bool-cases, ℕ_discrete,
}
use hepeng_projects.Proactor.Connection.{
  Handler, Operation, Context, World, store, set_entry, submit_operation, new_context,
}
use hepeng_projects.Proactor.Completion.{Answers, submit_next_read_operation, echo, with_answer}
use hepeng_projects.Proactor.Ownership.{Attached, Live, Owns, store_self, store_ne, some-injective}

-- Only the array and the heaps matter.
pub submit_operation-Owns : {w : World} (op : Operation) → Owns w → Owns (submit_operation w op)
unfolding submit_operation
submit_operation-Owns op o = record { sized = o.sized; live = o.live }

pub submit_next_read_operation-Owns :
    (a : Answers) {w : World} (q : ℕ) (c : Context)
    → Owns w
    → Owns (submit_next_read_operation a w q c)
unfolding submit_next_read_operation
submit_next_read_operation-Owns a {w} q c o = elim (Bool-cases a.operation) [
  | inl h ↦ rw h (submit_operation-Owns _ o)
  | inr h ↦ rw h o
]

-- A live context may be replaced by one with the same descriptor and a handler of its own, if the
-- other handlers stay.
pub replace-Owns :
    {w : World} {q : ℕ} {c : Context} (o : Owns w)
    → w.contexts q ≡ some c
    → (c' : Context) → c'.fd ≡ c.fd
    → (handlers : ℕ → Option Handler)
    → ((p : ℕ) (h : Option ℕ) → Attached w.handlers p h → Attached handlers p h)
    → Attached handlers q c'.handler
    → Owns (record w { contexts = store w.contexts q (some c'); handlers = handlers })
replace-Owns {w} {q} {c} o at c' same handlers kept fine = record { sized = o.sized; live = live }
  where
    live :
        (m p : ℕ)
        → get_or w.proactor.connections m none ≡ some p
        → Live (record w { contexts = store w.contexts q (some c'); handlers = handlers }) m p
    live m p e =
        let (d, there, own, a) = o.live m p e in
        elim (ℕ_discrete q p) [
          | yes eq ↦ (
            c',
            subst (λ x. store w.contexts q (some c') x ≡ some c') eq
                (store_self w.contexts q (some c')),
            same
                ∙ (ap (λ (x : Context). x.fd)
                      (some-injective {a = c} {b = d} (sym at ∙ (ap w.contexts eq ∙ there)))
                    ∙ own),
            subst (λ x. Attached handlers x c'.handler) eq fine,
          )
          | no ne ↦ (d, store_ne w.contexts (some c') ne ∙ there, own, kept p d.handler a)
        ]

-- A fresh context for a descriptor without one.
abbrev pub added : World → ℕ → ℕ → World
unfolding new_context
added w n q = record w {
  proactor = set_entry w.proactor (pos n) (some q);
  contexts = store w.contexts q (some (new_context (pos n)));
}

pub added-Owns :
    {w : World} {n q : ℕ}
    → Owns w
    → n < w.proactor.max_connections
    → w.contexts q ≡ none
    → Owns (added w n q)
unfolding new_context
added-Owns {w} {n} {q} o small fresh = record {
  sized = length-set w.proactor.connections n (some q) ∙ o.sized;
  live = live;
}
  where
    live :
        (m p : ℕ)
        → get_or (set w.proactor.connections n (some q)) m none ≡ some p
        → Live (added w n q) m p
    live m p e = elim (ℕ_discrete n m) [
      | yes eq ↦
          let put : get_or (set w.proactor.connections n (some q)) n none ≡ some q =
            get_or-set_self w.proactor.connections n (some q) none (omega (arith, o.sized)) in
          let same : q ≡ p = cc (put, e, eq) in
          let v = some (new_context (pos n)) in
          (
            new_context (pos n),
            subst (λ x. store w.contexts q v x ≡ v) same (store_self w.contexts q v),
            ap pos eq,
            tt,
          )
      | no ne ↦
          let there = sym (get_or-set_ne w.proactor.connections (some q) none ne) ∙ e in
          let (d, at, own, a) = o.live m p there in
          let other : q ≢ p = λ eq. cc (fresh, at, eq) in
          (d, store_ne w.contexts (some (new_context (pos n))) other ∙ at, own, a)
    ]

-- What keeps a live connection's answer: only its two buffers change.
pub rewrite-Owns :
    {w : World} {q : ℕ} {c : Context} (o : Owns w)
    → w.contexts q ≡ some c
    → Attached w.handlers q c.handler
    → (c' : Context) → c'.fd ≡ c.fd
    → c'.handler ≡ c.handler
    → Owns (record w { contexts = store w.contexts q (some c') })
rewrite-Owns {w} {q} o at fine c' same kept =
    replace-Owns o at c' same w.handlers (λ p h b. b)
      (subst (λ x. Attached w.handlers q x) (sym kept) fine)

-- `echo` only rewrites buffers and submits an operation.
pub echo-Owns :
    (a : Answers) {w : World} (fd : ℤ) (q : ℕ) (c : Context) (n : ℕ)
    → Owns w
    → w.contexts q ≡ some c
    → Attached w.handlers q c.handler
    → Owns (echo a w fd q c n)
unfolding echo with_answer
echo-Owns a {w} fd q c n o at fine = elim (Bool-cases (ltb (6 + n) 4096)) [
  | inl fits ↦ elim (Bool-cases a.operation) [
    | inl h ↦ rw (fits, h) (submit_operation-Owns _ (rewrite-Owns o at fine _ refl refl))
    | inr h ↦ rw (fits, h) (rewrite-Owns o at fine _ refl refl)
  ]
  | inr long ↦ rw long (submit_next_read_operation-Owns a q _ (rewrite-Owns o at fine _ refl refl))
]
