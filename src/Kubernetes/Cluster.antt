-- ===== src/Kubernetes/Cluster.antt =====
-- pkg/k8s/client.go: the calls of the Kubernetes API, each of which may fail. A cluster is the objects
-- of one namespace by kind and name, and the number of calls so far; `fails` says which calls fail.
-- A failed call changes nothing, and nobody else changes the objects during an operation.
use sealtun.Prelude.{
  ℕ, ◌+◌, ◌≡◌, ◌⊎◌, inl, inr, refl, ◌∙◌, sym, ap, zero, suc, Bool, true, ◌&&◌, Option, Bytes,
  str_eq, str_eq_iff, str_eq_refl, Result, ok, err, if◌then◌else◌, arith, Bool-cases,
}
use sealtun.Kubernetes.{Kind, rank, same_kind, Object}

pub record Cluster : Type 0 where
  pub objects : Kind → Bytes → Option Object
  pub calls : ℕ

pub data Error : Type 0 where
  call_failed invalid_tunnel_id not_managed missing changed_since negative_replicas
        no_dynamic_client invalid_options no_node_port no_container :
      Error

abbrev pub Objects : Type 0
Objects = Kind → Bytes → Option Object

unfoldable pub set_object : Kind → Bytes → Option Object → Objects → Objects
set_object kind name o objects k n = if same_kind kind k && str_eq name n then o else objects k n

module _ (fails : ℕ → Bool) where
  called : Cluster → Cluster
  called c = record c { calls = c.calls + 1 }

  unfoldable pub get : Kind → Bytes → Cluster → Result Error (Option Object) × Cluster
  unfolding called
  get k n c = (if fails c.calls then err call_failed else ok (c.objects k n), called c)

  -- A create, or an update of what is there, or a delete.
  unfoldable pub put : Kind → Bytes → Option Object → Cluster → Result Error (Unit {0}) × Cluster
  unfolding called
  put k n o c =
      if fails c.calls
      then (err call_failed, called c)
      else (ok tt, record (called c) { objects = set_object k n o c.objects })

abbrev of_rank : ℕ → Kind
of_rank zero = Kind.secret
of_rank (suc zero) = Kind.deployment
of_rank (suc (suc zero)) = Kind.service
of_rank (suc (suc (suc zero))) = Kind.ingress
of_rank (suc (suc (suc (suc zero)))) = Kind.issuer
of_rank (suc (suc (suc (suc (suc n))))) = Kind.certificate

of_rank-rank : (k : Kind) → of_rank (rank k) ≡ k
of_rank-rank Kind.secret = refl
of_rank-rank Kind.deployment = refl
of_rank-rank Kind.service = refl
of_rank-rank Kind.ingress = refl
of_rank-rank Kind.issuer = refl
of_rank-rank Kind.certificate = refl

pub same_kind_eq : (j k : Kind) → same_kind j k ≡ true → j ≡ k
same_kind_eq j k h =
    let e : rank j ≡ rank k = ground arith in sym (of_rank-rank j) ∙ ap of_rank e ∙ of_rank-rank k

-- A write changes one object: at its kind and name the new one is found, elsewhere the old ones.
pub set_object_cases :
    (kind : Kind) (name : Bytes) (o : Option Object) (objects : Objects) (k : Kind) (n : Bytes)
    → ((k ≡ kind) × (n ≡ name) × (set_object kind name o objects k n ≡ o))
      ⊎ (set_object kind name o objects k n ≡ objects k n)
unfolding set_object
set_object_cases kind name o objects k n = elim (Bool-cases (same_kind kind k && str_eq name n)) [
  | inl e ↦ inl (sym (same_kind_eq kind k (ground arith)), ground (arith, str_eq_iff name n), rw e)
  | inr e ↦ inr (rw e)
]

pub set_object_same :
    (k : Kind) (n : Bytes) (o : Option Object) (objects : Objects)
    → set_object k n o objects k n ≡ o
unfolding set_object
set_object_same k n o objects = ground (arith, str_eq_refl n)
