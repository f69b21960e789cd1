-- ===== src/Routes/Comparison.antt =====
-- `Equal` compares two tables as multisets of normalized rules.
use sealtun.Prelude.{
  ℕ, zero, suc, ◌+◌, ◌-◌, ◌≤◌, ◌<◌, ◌≡◌, ◌≢◌, ◌↔◌, ◌⊎◌, inl, inr, refl, sym, ap, ◌∙◌, Bool, true,
  false, ◌&&◌, List, [], ◌∷◌, ◌++◌, ℤ, pos, negsuc, Bytes, str_eq, str_eq_iff, str_eq_refl, arith,
  ◌==◌, if◌then◌else◌, Bool-cases, All, length,
}
use sealtun.Text.Decimal.{itoa, itoa-injective, itoa-All, IsDigit}
use sealtun.Routes.{Route, normalize_path, format_port, key, update, count_up, spend, equal}

-- No byte of the text is '='.
abbrev Plain : Bytes → Type 0
Plain = All (λ c. c ≢ b'=')

digits-Plain : (s : Bytes) → All IsDigit s → Plain s
digits-Plain [] h = tt
digits-Plain (c ∷ s) (d, h) = (omega arith, digits-Plain s h)

format_port-Plain : (n : ℤ) → Plain (format_port n)
unfolding format_port
format_port-Plain (pos n) = digits-Plain (itoa n) (itoa-All n)
format_port-Plain (negsuc n) = (omega arith, digits-Plain (itoa (suc n)) (itoa-All (suc n)))

no_equals : (q e d : Bytes) → Plain d → d ≢ q ++ b'=' ∷ e
no_equals [] e [] p h = cc
no_equals [] e (x ∷ d) p h = p.0 (ground arith)
no_equals (y ∷ q) e [] p h = cc
no_equals (y ∷ q) e (x ∷ d) p h = no_equals q e d p.1 (ground arith)

-- The last '=' splits a text in one way.
split_unique :
    (p q d e : Bytes) → Plain d → Plain e → p ++ b'=' ∷ d ≡ q ++ b'=' ∷ e → (p ≡ q) × (d ≡ e)
split_unique [] [] d e hd he h = (refl, ground arith)
split_unique [] (c ∷ q) d e hd he h = absurd (no_equals q e d hd (ground arith))
split_unique (c ∷ p) [] d e hd he h = absurd (no_equals p d e he (sym (ground arith)))
split_unique (c ∷ p) (c' ∷ q) d e hd he h =
    let (a, b) = split_unique p q d e hd he (ground arith) in (ground arith, b)

minus-Plain : (m n : ℕ) → itoa m ≢ b'-' ∷ itoa n
minus-Plain m n h = starts (itoa m) (itoa-All m) h
  where
    starts : (s : Bytes) → All IsDigit s → s ≢ b'-' ∷ itoa n
    starts [] d e = cc
    starts (c ∷ s) d e = ground (arith, d.0)

format_port-injective : (m n : ℤ) → format_port m ≡ format_port n → m ≡ n
unfolding format_port
format_port-injective (pos m) (pos n) h = ap pos (itoa-injective m n h)
format_port-injective (pos m) (negsuc n) h = absurd (minus-Plain m (suc n) h)
format_port-injective (negsuc m) (pos n) h = absurd (minus-Plain n (suc m) (sym h))
format_port-injective (negsuc m) (negsuc n) h =
    ap negsuc (omega (arith, itoa-injective (suc m) (suc n) (ground arith)))

-- Two routes are the same rule if their normalized prefixes and their ports agree.
abbrev pub port_eq : ℤ → ℤ → Bool
port_eq (pos m) (pos n) = m == n
port_eq (pos m) (negsuc n) = false
port_eq (negsuc m) (pos n) = false
port_eq (negsuc m) (negsuc n) = m == n

pub same_rule : Route → Route → Bool
same_rule r s = str_eq (normalize_path r.path) (normalize_path s.path) && port_eq r.port s.port

-- How often a table has the rule of `r`.
pub rule_count : Route → List Route → ℕ
unfolding same_rule
rule_count r [] = 0
rule_count r (s ∷ rs) = (if same_rule r s then 1 else 0) + rule_count r rs

port_eq_iff : (m n : ℤ) → (port_eq m n ≡ true) ↔ (m ≡ n)
port_eq_iff (pos m) (pos n) = ground arith
port_eq_iff (pos m) (negsuc n) = ground arith
port_eq_iff (negsuc m) (pos n) = ground arith
port_eq_iff (negsuc m) (negsuc n) = ground arith

-- The map's keys tell different rules apart.
key-same_rule : (r s : Route) → str_eq (key s) (key r) ≡ same_rule r s
unfolding key same_rule
key-same_rule r s = elim (Bool-cases (str_eq (key s) (key r))) [
  | inl e ↦
      let (a, b) =
        split_unique (normalize_path s.path) (normalize_path r.path) (format_port s.port)
          (format_port r.port) (format_port-Plain s.port) (format_port-Plain r.port)
          ((str_eq_iff (key s) (key r)).0 e) in
      rw e (
        ground (
          arith,
          str_eq_iff (normalize_path r.path) (normalize_path s.path),
          port_eq_iff r.port s.port,
          format_port-injective s.port r.port b,
          a,
        ))
  | inr e ↦ ground (
    arith,
    str_eq_iff (normalize_path r.path) (normalize_path s.path),
    port_eq_iff r.port s.port,
    str_eq_iff (key s) (key r),
  )
]

occurs : Bytes → List Route → ℕ
unfolding key
occurs k [] = 0
occurs k (r ∷ rs) = (if str_eq k (key r) then 1 else 0) + occurs k rs

rule_count-occurs : (r : Route) (rs : List Route) → rule_count r rs ≡ occurs (key r) rs
unfolding rule_count occurs
rule_count-occurs r [] = refl
rule_count-occurs r (s ∷ rs) = ground (
  arith,
  rule_count-occurs r rs,
  key-same_rule r s,
  str_eq_iff (key s) (key r),
  str_eq_iff (key r) (key s),
)

count_up-occurs :
    (rs : List Route) (f : Bytes → ℕ) (k : Bytes) → count_up rs f k ≡ f k + occurs k rs
unfolding count_up occurs update
count_up-occurs [] f k = omega arith
count_up-occurs (r ∷ rs) f k =
    let g = update f (key r) (f (key r) + 1) in
    ground (arith, count_up-occurs rs g k, str_eq_iff k (key r))

spend_iff :
    (rs : List Route) (f : Bytes → ℕ) → (spend rs f ≡ true) ↔ ((k : Bytes) → occurs k rs ≤ f k)
unfolding spend occurs update
spend_iff [] f = (λ h k. omega arith, λ h. refl)
spend_iff (r ∷ rs) f =
    let g = update f (key r) (f (key r) - 1) in
    let ih = spend_iff rs g in
    (
      λ h k. ground (arith, ih.0 (ground arith) k, str_eq_iff k (key r)),
      λ h.
          let some_left : occurs (key r) (r ∷ rs) ≤ f (key r) = h (key r) in
          ground (
            arith,
            some_left,
            str_eq_refl (key r),
            ih.1 (λ k. ground (arith, h k, str_eq_iff k (key r), some_left, str_eq_refl (key r))),
          ),
    )

-- One route with a given key taken out of a table.
record TakenOut (k : Bytes) (rs : List Route) : Type 0 where
  left : List Route
  shorter : length rs ≡ suc (length left)
  counts : (j : Bytes) → occurs j rs ≡ (if str_eq j k then 1 else 0) + occurs j left

take_out : (k : Bytes) (rs : List Route) → 0 < occurs k rs → TakenOut k rs
unfolding occurs
take_out k [] h = absurd (omega arith)
take_out k (r ∷ rs) h = elim (Bool-cases (str_eq k (key r))) [
  | inl e ↦ record { left = rs; shorter = refl; counts = λ j. rw ((str_eq_iff k (key r)).0 e) }
  | inr e ↦
      let t = take_out k rs (ground arith) in
      record {
        left = r ∷ t.left;
        shorter = omega (arith, t.shorter);
        counts = λ j. omega (arith, t.counts j);
      }
]

module _ (k : Bytes) (bs as' left : List Route) (r : Route)
    (counts : (j : Bytes) → occurs j as' ≡ (if str_eq j (key r) then 1 else 0) + occurs j left)
    (within : (j : Bytes) → occurs j (r ∷ bs) ≤ occurs j as') where
  within_left : occurs k bs ≤ occurs k left
  unfolding occurs
  within_left = omega (arith, counts k, within k)

occurs_self : (r : Route) (rs : List Route) → 0 < occurs (key r) (r ∷ rs)
unfolding occurs
occurs_self r rs = ground (arith, str_eq_refl (key r))

length_of_within :
    (bs as' : List Route) → ((k : Bytes) → occurs k bs ≤ occurs k as') → length bs ≤ length as'
length_of_within [] as' h = omega arith
length_of_within (r ∷ bs) as' h =
    let t = take_out (key r) as' (omega (arith, h (key r), occurs_self r bs)) in
    omega
      (arith, t.shorter, length_of_within bs t.left (λ k. within_left k bs as' t.left r t.counts h))

-- Of two tables of one length, neither has a key more often if the other does not.
within_symm :
    (bs as' : List Route)
    → length as' ≤ length bs
    → ((k : Bytes) → occurs k bs ≤ occurs k as')
    → (k : Bytes) → occurs k as' ≤ occurs k bs
unfolding occurs
within_symm [] [] l h k = omega arith
within_symm [] (a ∷ as') l h k = absurd (omega arith)
within_symm (r ∷ bs) as' l h k =
    let t = take_out (key r) as' (omega (arith, h (key r), occurs_self r bs)) in
    omega (
      arith,
      t.counts k,
      within_symm bs t.left (omega (arith, t.shorter))
          (λ j. within_left j bs as' t.left r t.counts h) k,
    )

-- A key that a table has is the key of one of its routes.
key_of_occurs : (k : Bytes) (rs : List Route) → 0 < occurs k rs → (r : Route) × (k ≡ key r)
unfolding occurs
key_of_occurs k [] h = absurd (omega arith)
key_of_occurs k (r ∷ rs) h = elim (Bool-cases (str_eq k (key r))) [
  | inl e ↦ (r, (str_eq_iff k (key r)).0 e)
  | inr e ↦ key_of_occurs k rs (ground arith)
]

equal_iff :
    (as' bs : List Route)
    → (equal as' bs ≡ true)
      ↔ ((length as' ≡ length bs) × ((k : Bytes) → occurs k bs ≤ occurs k as'))
unfolding equal
equal_iff as' bs =
    let s = spend_iff bs (count_up as' (λ _. 0)) in
    (
      λ h. (ground arith, λ k. omega (arith, s.0 (ground arith) k, count_up-occurs as' (λ _. 0) k)),
      λ h. ground (arith, h.0, s.1 (λ k. omega (arith, h.1 k, count_up-occurs as' (λ _. 0) k))),
    )

zero_or_pos : (n : ℕ) → (n ≡ 0) ⊎ (0 < n)
zero_or_pos zero = inl refl
zero_or_pos (suc n) = inr (omega arith)

module _ (as' bs : List Route) (h : (r : Route) → rule_count r as' ≡ rule_count r bs) where
  same_at_key : (k : Bytes) → (r : Route) × (k ≡ key r) → occurs k as' ≡ occurs k bs
  same_at_key k (r, e) = rw e (sym (rule_count-occurs r as') ∙ h r ∙ rule_count-occurs r bs)

  same_occurs : (k : Bytes) → occurs k as' ≡ occurs k bs
  same_occurs k = elim (zero_or_pos (occurs k as')) [
    | inr p ↦ same_at_key k (key_of_occurs k as' p)
    | inl z ↦ elim (zero_or_pos (occurs k bs)) [
      | inr p ↦ same_at_key k (key_of_occurs k bs p)
      | inl y ↦ omega arith
    ]
  ]

-- `Equal` holds exactly when both tables have every rule equally often: the order of the routes and
-- the spelling of their prefixes do not matter, and different rules never share a map key.
pub equal-rule_count_iff :
    (as' bs : List Route)
    → (equal as' bs ≡ true) ↔ ((r : Route) → rule_count r as' ≡ rule_count r bs)
equal-rule_count_iff as' bs = (to, from)
  where
    to : equal as' bs ≡ true → (r : Route) → rule_count r as' ≡ rule_count r bs
    to h r =
        let (l, w) = (equal_iff as' bs).0 h in
        omega (
          arith,
          rule_count-occurs r as',
          rule_count-occurs r bs,
          w (key r),
          within_symm bs as' (omega arith) w (key r),
        )

    from : ((r : Route) → rule_count r as' ≡ rule_count r bs) → equal as' bs ≡ true
    from h =
        let same = same_occurs as' bs h in
        (equal_iff as' bs).1 (
          omega (
            arith,
            length_of_within bs as' (λ k. omega (arith, same k)),
            length_of_within as' bs (λ k. omega (arith, same k)),
          ),
          λ k. omega (arith, same k),
        )
