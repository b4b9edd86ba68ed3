-- ===== src/Logging/Handlers.antt =====
-- Which handlers the loop over the changing list leaves.
use flow_proxy.Base.{
  ℕ, zero, suc, ◌+◌, ◌≤◌, ◌==◌, nat_eq, ◌≡◌, refl, sym, ap, subst, ◌∙◌, inl, inr, Bool, true, false,
  Bool-cases, none, some, List, [], ◌∷◌, ◌++◌, append_assoc, All, length, length-append, get_elem?,
  if◌then◌else◌, arith,
}
use flow_proxy.Logging.{
  Handler, Logger, is_file, remove_handler, visit, remove_files,
  setup_file_handler_for_child_process,
}

-- What comes right after a file handler is passed over.
unfoldable pub swept : List Handler → List Handler
swept [] = []
swept (h ∷ []) = if is_file h then [] else h ∷ []
swept (h ∷ k ∷ ks) =
    let passed = swept ks in let seen = swept (k ∷ ks) in if is_file h then k ∷ passed else h ∷ seen

-- No handler is in the list twice.
abbrev pub AreApart : List Handler → Type 0
AreApart [] = Unit
AreApart (h ∷ hs) = All (λ k. (h.number == k.number) ≡ false) hs × AreApart hs

module _ (P : Handler → Type 0) (h : Handler) (hs : List Handler) where
  All-here : (done : List Handler) → All P (done ++ h ∷ hs) → P h
  All-here [] a = a.0
  All-here (d ∷ ds) a = All-here ds a.1

  All-without : (done : List Handler) → All P (done ++ h ∷ hs) → All P (done ++ hs)
  All-without [] a = a.1
  All-without (d ∷ ds) a = (a.0, All-without ds a.1)

module _ (h : Handler) (hs : List Handler) where
  apart-without : (done : List Handler) → AreApart (done ++ h ∷ hs) → AreApart (done ++ hs)
  apart-without [] a = a.1
  apart-without (d ∷ ds) a =
      (All-without (λ k. (d.number == k.number) ≡ false) h hs ds a.0, apart-without ds a.1)

  remove_handler_lem :
      (done : List Handler)
      → AreApart (done ++ h ∷ hs)
      → remove_handler h (done ++ h ∷ hs) ≡ done ++ hs
  unfolding remove_handler
  remove_handler_lem [] a = rw ((nat_eq.test_iff h.number h.number).1 refl) refl
  remove_handler_lem (d ∷ ds) a =
      rw (All-here (λ k. (d.number == k.number) ≡ false) h hs ds a.0)
        (ap (λ ks. d ∷ ks) (remove_handler_lem ds a.1))

  get_elem?_here : (done : List Handler) → get_elem? (done ++ h ∷ hs) (length done) ≡ some h
  get_elem?_here [] = refl
  get_elem?_here (d ∷ ds) = get_elem?_here ds

get_elem?_end : (hs : List Handler) (i : ℕ) → length hs ≤ i → get_elem? hs i ≡ none
get_elem?_end [] i n = refl
get_elem?_end (h ∷ hs) zero n = absurd (omega (arith, n))
get_elem?_end (h ∷ hs) (suc i) n = get_elem?_end hs i (omega (arith, n))

remove_files_end : (fuel i : ℕ) (hs : List Handler) → length hs ≤ i → remove_files fuel i hs ≡ hs
unfolding remove_files visit
remove_files_end zero i hs n = refl
remove_files_end (suc fuel) i hs n =
    rw (get_elem?_end hs i n) (remove_files_end fuel (i + 1) hs (omega (arith, n)))

-- The loop goes on behind `k`.
step_over :
    (fuel : ℕ) (done : List Handler) (k : Handler) (ks later : List Handler)
    → remove_files fuel (length (done ++ k ∷ [])) ((done ++ k ∷ []) ++ ks)
      ≡ (done ++ k ∷ []) ++ later
    → remove_files fuel (length done + 1) (done ++ k ∷ ks) ≡ done ++ k ∷ later
step_over fuel done k ks later ih =
    ap (λ i. remove_files fuel i (done ++ k ∷ ks)) (sym (length-append done (k ∷ [])))
    ∙ ap (remove_files fuel (length (done ++ k ∷ []))) (sym (append_assoc done (k ∷ []) ks))
    ∙ ih
    ∙ append_assoc done (k ∷ []) later

visit_lem :
    (done : List Handler) (h : Handler) (hs : List Handler) (b : Bool)
    → is_file h ≡ b
    → AreApart (done ++ h ∷ hs)
    → visit (done ++ h ∷ hs) (get_elem? (done ++ h ∷ hs) (length done))
      ≡ done ++ (if b then hs else h ∷ hs)
unfolding visit
visit_lem done h hs true e a = rw (get_elem?_here h hs done, e) (remove_handler_lem h hs done a)
visit_lem done h hs false e a = rw (get_elem?_here h hs done, e) refl

-- The loop at the index behind `done`.
loop_lem :
    (fuel : ℕ) (rest done : List Handler)
    → length rest ≤ fuel
    → AreApart (done ++ rest)
    → remove_files fuel (length done) (done ++ rest) ≡ done ++ swept rest
unfolding swept visit remove_files
loop_lem fuel [] done n a =
    remove_files_end fuel (length done) (done ++ []) (omega (arith, length-append done []))
loop_lem zero (h ∷ hs) done n a = absurd (omega (arith, n))
loop_lem (suc fuel) (h ∷ []) done n a = elim (Bool-cases (is_file h)) [
  | inl file ↦ rw file (
      ap (remove_files fuel (length done + 1)) (visit_lem done h [] true file a)
      ∙ remove_files_end fuel (length done + 1) (done ++ []) (omega (arith, length-append done [])))
  | inr other ↦ rw other (
      ap (remove_files fuel (length done + 1)) (visit_lem done h [] false other a)
      ∙ remove_files_end fuel (length done + 1) (done ++ h ∷ [])
          (omega (arith, length-append done (h ∷ []))))
]
loop_lem (suc fuel) (h ∷ k ∷ ks) done n a = elim (Bool-cases (is_file h)) [
  | inl file ↦ rw file (
      ap (remove_files fuel (length done + 1)) (visit_lem done h (k ∷ ks) true file a)
      ∙ step_over fuel done k ks (swept ks) (
          loop_lem fuel ks (done ++ k ∷ []) (omega (arith, n)) (
            subst AreApart (sym (append_assoc done (k ∷ []) ks))
              (apart-without h (k ∷ ks) done a))))
  | inr other ↦ rw other (
      ap (remove_files fuel (length done + 1)) (visit_lem done h (k ∷ ks) false other a)
      ∙ step_over fuel done h (k ∷ ks) (swept (k ∷ ks)) (
          loop_lem fuel (k ∷ ks) (done ++ h ∷ []) (omega (arith, n))
            (subst AreApart (sym (append_assoc done (h ∷ []) (k ∷ ks))) a)))
]

-- For handlers that are all different, the loop passes over whatever comes right after a handler
-- that it removes: of two file handlers next to each other the second stays, in front of the new one.
pub setup_file_handler_for_child_process-swept :
    (file_handler : Handler) (logger : Logger)
    → AreApart logger.handlers
    → (setup_file_handler_for_child_process file_handler logger).handlers
      ≡ swept logger.handlers ++ file_handler ∷ []
unfolding setup_file_handler_for_child_process
setup_file_handler_for_child_process-swept file_handler logger a =
    ap (λ hs. hs ++ file_handler ∷ [])
      (loop_lem (length logger.handlers) logger.handlers [] (omega arith) a)
