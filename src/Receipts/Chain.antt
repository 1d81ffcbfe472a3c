-- ===== src/Receipts/Chain.antt =====
-- What an accepted receipt chain says: its links, and that a head commits to one history.
use hyperfinite.Common.{
  ℕ, ◌+◌, ◌≤◌, zero, suc, Bool, true, false, ◌≡◌, ◌≢◌, ◌⊎◌, inl, inr, refl, sym, subst, ap, ◌∙◌,
  Option, none, some, List, [], ◌∷◌, ◌++◌, length, reports-nil, append-nil_inv, arith,
  if◌then◌else◌, string_eq, option_eq, eq_of_test_ne, String-discrete, ℕ_discrete,
}
use hyperfinite.Types.Accord.{Digest, WorkAccord}
use hyperfinite.Types.Snapshot.{TransitionReceipt}
use hyperfinite.Host.{Host}
use hyperfinite.Receipts.{
  ReceiptChainError, receipt_digest, own_checks, terminal_checks, receipt_round, receipt_rounds,
  head_after, verify_receipt_chain,
}

TransitionReceipt-discrete : Discrete TransitionReceipt
TransitionReceipt-discrete = hlevel (String-discrete, ℕ_discrete)

some_inj : {a b : Digest} → some a ≡ some b → a ≡ b
some_inj h = cc

module _ (host : Host) where
  -- From the head `init` each receipt names the digest of the one before; `head` is the last.
  abbrev pub IsLinked : Option Digest → List TransitionReceipt → Option Digest → Type 0
  IsLinked init [] head = init ≡ head
  IsLinked init (r ∷ receipts) head =
      (r.previous_receipt ≡ init) × IsLinked (some (receipt_digest host r)) receipts head

  -- Two different receipts with one digest.
  pub record Collision : Type 0 where
    pub left : TransitionReceipt
    pub right : TransitionReceipt
    pub differ : left ≢ right
    pub same_digest : receipt_digest host left ≡ receipt_digest host right

  round-previous :
      (binding : Digest) (i : ℕ) (head : Option Digest) (prior : Option TransitionReceipt)
      (r : TransitionReceipt)
      → receipt_round host binding i head prior r ≡ []
      → r.previous_receipt ≡ head
  unfolding receipt_round
  round-previous binding i head prior r h =
      eq_of_test_ne (reports-nil (own_checks host binding i head r) (append-nil_inv _ _ h).0).1.0

  rounds-IsLinked :
      (binding : Digest) (i : ℕ) (head : Option Digest) (prior : Option TransitionReceipt)
      (receipts : List TransitionReceipt)
      → receipt_rounds host binding i head prior receipts ≡ []
      → IsLinked head receipts (head_after host head receipts)
  unfolding receipt_rounds head_after
  rounds-IsLinked binding i head prior [] h = refl
  rounds-IsLinked binding i head prior (r ∷ receipts) h =
      let (round, rest) = append-nil_inv _ _ h in
      (
        round-previous binding i head prior r round,
        rounds-IsLinked binding (i + 1) (some (receipt_digest host r)) (some r) receipts rest,
      )

  else_nil :
      (b : Bool) (e : ReceiptChainError) (rest : List ReceiptChainError)
      → (if b then e ∷ [] else rest) ≡ []
      → rest ≡ []
  else_nil true e rest h = cc
  else_nil false e rest h = h

  -- The receipts of an accepted chain link the initial head to the expected terminal head.
  pub accepted-IsLinked :
      (receipts : List TransitionReceipt) (terminal : Digest) (accord : WorkAccord)
      (initial : Option Digest)
      → verify_receipt_chain host receipts terminal accord initial ≡ []
      → IsLinked initial receipts (some terminal)
  unfolding verify_receipt_chain
  accepted-IsLinked receipts terminal accord initial h =
      let (rounds, ends) = append-nil_inv _ _ (else_nil _ _ _ h) in
      let head = head_after host initial receipts in
      subst (IsLinked initial receipts)
        (eq_of_test_ne (reports-nil (terminal_checks host head receipts terminal accord) ends).0)
        (rounds-IsLinked _ 0 initial none receipts rounds)

  -- A linked list that has a receipt, from its end.
  record Last (init : Option Digest) (receipts : List TransitionReceipt) (head : Option Digest)
      : Type 0 where
    pub before : List TransitionReceipt
    pub last : TransitionReceipt
    pub split : receipts ≡ before ++ (last ∷ [])
    pub linked : IsLinked init before last.previous_receipt
    pub head_eq : some (receipt_digest host last) ≡ head

  Last-of :
      (init head : Option Digest) (r : TransitionReceipt) (receipts : List TransitionReceipt)
      → IsLinked init (r ∷ receipts) head
      → Last init (r ∷ receipts) head
  Last-of init head r [] (previous, ends) = record {
    before = [];
    last = r;
    split = refl;
    linked = sym previous;
    head_eq = ends;
  }
  Last-of init head r (s ∷ receipts) (previous, rest) =
      let l = Last-of (some (receipt_digest host r)) head s receipts rest in
      record {
        before = r ∷ l.before;
        last = l.last;
        split = ap (λ rs. r ∷ rs) l.split;
        linked = (previous, l.linked);
        head_eq = l.head_eq;
      }

  length-snoc :
      (rs : List TransitionReceipt) (r : TransitionReceipt)
      → length (rs ++ (r ∷ [])) ≡ length rs + 1
  length-snoc [] r = refl
  length-snoc (x ∷ rs) r = let ih = length-snoc rs r in ground arith

  before_shorter :
      (n : ℕ) {init head : Option Digest} (r : TransitionReceipt) (rs : List TransitionReceipt)
      (l : Last init (r ∷ rs) head)
      → length (r ∷ rs) ≤ suc n
      → length l.before ≤ n
  before_shorter n r rs l small =
      let same = ap length l.split ∙ length-snoc l.before l.last in ground arith

  -- One history for a head, or a collision, for lists of at most `n` receipts.
  one_history :
      (n : ℕ) (head : Option Digest) (rs ss : List TransitionReceipt)
      → length rs ≤ n
      → IsLinked none rs head
      → IsLinked none ss head
      → (rs ≡ ss) ⊎ Collision
  one_history n head [] [] small a b = inl refl
  one_history n head [] (s ∷ ss) small a b = let l = Last-of none head s ss b in cc
  one_history n head (r ∷ rs) [] small a b = let l = Last-of none head r rs a in cc
  one_history zero head (r ∷ rs) (s ∷ ss) small a b = ground arith
  one_history (suc n) head (r ∷ rs) (s ∷ ss) small a b =
      let l = Last-of none head r rs a in
      let m = Last-of none head s ss b in
      elim (TransitionReceipt-discrete l.last m.last) [
        | no ne ↦ inr (record {
          left = l.last;
          right = m.last;
          differ = ne;
          same_digest = some_inj (l.head_eq ∙ sym m.head_eq);
        })
        | yes e ↦
            elim (one_history n l.last.previous_receipt l.before m.before
              (before_shorter n r rs l small) l.linked
              (subst (λ x. IsLinked none m.before x.previous_receipt) (sym e) m.linked)) [
                | inr c ↦ inr c
                | inl same ↦ inl (
                    l.split
                    ∙ ap (λ xs. xs ++ (l.last ∷ [])) same
                    ∙ ap (λ x. m.before ++ (x ∷ [])) e
                    ∙ sym m.split)
              ]
      ]

  -- Two accepted chains from the start of a history with the same terminal head are the same
  -- receipts, or they exhibit two different receipts with one digest.
  pub accepted-one_history :
      (receipts others : List TransitionReceipt) (terminal : Digest) (accord other : WorkAccord)
      → verify_receipt_chain host receipts terminal accord none ≡ []
      → verify_receipt_chain host others terminal other none ≡ []
      → (receipts ≡ others) ⊎ Collision
  accepted-one_history receipts others terminal accord other h k =
      one_history (length receipts) (some terminal) receipts others (ground arith)
        (accepted-IsLinked receipts terminal accord none h)
        (accepted-IsLinked others terminal other none k)
