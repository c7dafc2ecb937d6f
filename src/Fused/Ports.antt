-- ===== src/Fused/Ports.antt =====
-- The boundary of a cone: what its members read and drive.
use piperine.Common.{
  ◌≡◌, refl, ap, ◌∙◌, inl, inr, true, not, ◌&&◌, ◌||◌, List, [], ◌∷◌, ◌++◌, ◌==◌, Bool-cases, arith,
  retain,
}
use piperine.F64.{F64}
use piperine.Digital.Event.{DigitalNet}
use piperine.Digital.Interface.{contains_net}
use piperine.Fused.{
  dedup_from, dedup, NetworkMember, NetworkPorts, reads, drives, touches, ports_of, cone_of,
}

contains_net-append :
    (xs ys : List DigitalNet) (n : DigitalNet)
    → contains_net (xs ++ ys) n ≡ (contains_net xs n || contains_net ys n)
unfolding contains_net
contains_net-append [] ys n = refl
contains_net-append (x ∷ xs) ys n = ground (arith, contains_net-append xs ys n)

contains_net-same :
    (ds : List DigitalNet) (x n : DigitalNet)
    → (x == n) ≡ true
    → contains_net ds x ≡ contains_net ds n
contains_net-same ds x n e = let same : x ≡ n = ground arith in ap (contains_net ds) same

contains_net-retain :
    (ds xs : List DigitalNet) (n : DigitalNet)
    → contains_net (retain (λ m. not (contains_net ds m)) xs) n
      ≡ (contains_net xs n && not (contains_net ds n))
unfolding contains_net
contains_net-retain ds [] n = refl
contains_net-retain ds (x ∷ xs) n = elim (Bool-cases (x == n)) [
  | inl e ↦ ground (arith, contains_net-retain ds xs n, contains_net-same ds x n e)
  | inr e ↦ ground (arith, contains_net-retain ds xs n)
]

contains_net-dedup_from :
    (seen xs : List DigitalNet) (n : DigitalNet)
    → contains_net (dedup_from seen xs) n ≡ (contains_net xs n && not (contains_net seen n))
unfolding contains_net dedup_from
contains_net-dedup_from seen [] n = refl
contains_net-dedup_from seen (x ∷ xs) n = elim (Bool-cases (x == n)) [
  | inl e ↦ ground (
    arith,
    contains_net-dedup_from seen xs n,
    contains_net-dedup_from (x ∷ seen) xs n,
    contains_net-same seen x n e,
  )
  | inr e ↦
      ground (arith, contains_net-dedup_from seen xs n, contains_net-dedup_from (x ∷ seen) xs n)
]

contains_net-dedup :
    (xs : List DigitalNet) (n : DigitalNet) → contains_net (dedup xs) n ≡ contains_net xs n
unfolding dedup contains_net
contains_net-dedup xs n = ground (arith, contains_net-dedup_from [] xs n)

module _ {F : F64} where
  contains_net-touches :
      (ms : List (NetworkMember F)) (n : DigitalNet)
      → contains_net (touches F ms) n
        ≡ (contains_net (reads F ms) n || contains_net (drives F ms) n)
  unfolding touches reads drives contains_net
  contains_net-touches [] n = refl
  contains_net-touches (m ∷ ms) n = ground (
    arith,
    contains_net-touches ms n,
    contains_net-append m.in_nets (m.out_nets ++ touches F ms) n,
    contains_net-append m.out_nets (touches F ms) n,
    contains_net-append m.in_nets (reads F ms) n,
    contains_net-append m.out_nets (drives F ms) n,
  )

  -- A net is an input of the cone if and only if a member reads it and none drives it, an output if and
  -- only if a member drives it, and synced from the scheduler if and only if a member does either.
  pub ports_of-boundary :
      (ms : List (NetworkMember F)) (n : DigitalNet)
      → (contains_net (NetworkPorts.inputs (ports_of F ms)) n
          ≡ (contains_net (reads F ms) n && not (contains_net (drives F ms) n)))
        × (contains_net (NetworkPorts.outputs (ports_of F ms)) n ≡ contains_net (drives F ms) n)
        × (contains_net (cone_of F ms) n
            ≡ (contains_net (reads F ms) n || contains_net (drives F ms) n))
  unfolding ports_of cone_of
  ports_of-boundary ms n = (
    contains_net-dedup (retain (λ m. not (contains_net (drives F ms) m)) (reads F ms)) n
        ∙ contains_net-retain (drives F ms) (reads F ms) n,
    contains_net-dedup (drives F ms) n,
    contains_net-dedup (touches F ms) n ∙ contains_net-touches ms n,
  )
