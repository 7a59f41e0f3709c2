-- ===== src/Application/Policies.antt =====
-- The network policies of an application.
use mathlib.Core.Option
use mathlib.Core.Option.{none-ne-some}
use primehub_controller.Prelude.{
  String, Bool, true, false, List, [], ◌∷◌, map, lookup, str_eq, ◌&&◌, ◌||◌, Option, some, none,
  ◌≡◌, ◌⊎◌, inl, inr, refl, sym, ap, arith, All, Error,
}
use primehub_controller.Escapism.{Unicode, escape_to_primehub_label}
use primehub_controller.Deployment.Objects.{Step, attempt, unless_error}
use primehub_controller.Application.Objects.{
  PhApplication, NetworkPolicy, PolicyKind, group_policy, proxy_policy, Labels, IngressRule,
  ServicePort, policy_ports, put_in_read,
}
use primehub_controller.Application.{built_policy, updated_policy, ingress_rules, group_label}
use primehub_controller.Application.Reconcile.{
  written_policy, write_group_policy, write_proxy_policy, AppCluster, AppFaults,
  reconcile_network_policy,
}

abbrev pub has_text : String → Option String → Bool
has_text value none = false
has_text value (some found) = str_eq found value

-- A pod with these labels has the label of a selector of pods.
abbrev pub is_labelled : Labels → String × String → Bool
is_labelled pod (name, value) = has_text value (lookup name pod)

-- A peer selects the pods that have all its labels.
unfoldable pub selects : Labels → Labels → Bool
selects [] pod = true
selects (label ∷ labels) pod = is_labelled pod label && selects labels pod

unfoldable pub any_selects : List Labels → Labels → Bool
any_selects [] pod = false
any_selects (peer ∷ peers) pod = selects peer pod || any_selects peers pod

-- A rule without peers admits every pod.
unfoldable pub admits_pod : List Labels → Labels → Bool
admits_pod [] pod = true
admits_pod (peer ∷ peers) pod = any_selects (peer ∷ peers) pod

-- A network policy admits the pods that one of its rules admits.
unfoldable pub admits : List IngressRule → Labels → Bool
admits [] pod = false
admits (rule ∷ rules) pod = admits_pod rule.peers pod || admits rules pod

-- Whether a pod is of those that a policy is to admit: the pods of the group, or the console and the
-- GraphQL server.
abbrev pub is_meant : {Q : Type 0} → Unicode → PolicyKind → PhApplication Q → Labels → Bool
is_meant tables group_policy app pod =
    has_text (escape_to_primehub_label tables app.spec.group_name) (lookup "primehub.io/group" pod)
is_meant tables proxy_policy app pod =
    has_text "primehub-console" (lookup "app.kubernetes.io/name" pod)
    || has_text "primehub-graphql" (lookup "app.kubernetes.io/name" pod)

-- The protocols and the target ports of the service.
abbrev pub service_ports : {Q : Type 0} → PhApplication Q → List (String × String)
service_ports app = map (λ (p : ServicePort). (p.protocol, p.target_port)) app.spec.ports

-- A policy that admits exactly the pods that it is to admit, at the ports of the service.
unfoldable pub Admits :
    {Q : Type 0} → Unicode → PolicyKind → PhApplication Q → Option NetworkPolicy → Type 0
Admits tables kind app none = ⊥
Admits tables kind app (some policy) =
    ((pod : Labels) → admits policy.ingress pod ≡ is_meant tables kind app pod)
    × All (λ (rule : IngressRule). rule.ports ≡ service_ports app) policy.ingress

policy_ports-service_ports :
    (ports : List ServicePort)
    → policy_ports ports ≡ map (λ (p : ServicePort). (p.protocol, p.target_port)) ports
unfolding policy_ports
policy_ports-service_ports [] = refl
policy_ports-service_ports (p ∷ ports) =
    ap (λ rest. (p.protocol, p.target_port) ∷ rest) (policy_ports-service_ports ports)

module _ {Q : Type 0} (tables : Unicode) (app : PhApplication Q) where
  -- The rules of the code admit the pods that are meant.
  ingress_rules-Admits :
      (kind : PolicyKind) (policy : NetworkPolicy)
      → policy.ingress ≡ ingress_rules tables kind app.spec
      → Admits tables kind app (some policy)
  unfolding Admits ingress_rules admits admits_pod any_selects selects group_label
  ingress_rules-Admits group_policy policy e =
      rw e ((λ pod. ground arith), (policy_ports-service_ports app.spec.ports, tt))
  ingress_rules-Admits proxy_policy policy e =
      rw e ((λ pod. ground arith), (policy_ports-service_ports app.spec.ports, tt))

-- A policy that exists without labels.
unfoldable pub IsUnlabelled : Option NetworkPolicy → Type 0
IsUnlabelled none = ⊥
IsUnlabelled (some policy) = policy.labels ≡ []

attempt-cluster :
    {C : Type 0} (P : C → Type 0) (o : Option Error) (old new : C)
    → o ≡ none
    → P new
    → P (attempt o old new).cluster
attempt-cluster P none old new e h = h
attempt-cluster P (some x) old new e h = absurd (none-ne-some x (sym e))

unless_error-none :
    {X : Type 0} (P : X → Type 0) (o : Option Error) (f : Error → X) (x : X)
    → o ≡ none
    → P x
    → P (unless_error o f x)
unless_error-none P none f x e h = h
unless_error-none P (some y) f x e h = absurd (none-ne-some y (sym e))

module _ {Q : Type 0} (tables : Unicode) (faults : AppFaults) (app : PhApplication Q) where
  -- What is written for a policy, or the panic for one without labels.
  abbrev IsWritten : PolicyKind → Option NetworkPolicy → Option NetworkPolicy → Type 0
  IsWritten kind old none = IsUnlabelled old
  IsWritten kind old (some policy) = Admits tables kind app (some policy)

  put_in_read-cases :
      (kind : PolicyKind) (policy : NetworkPolicy) (labels : Labels)
      → policy.labels ≡ labels
      → IsWritten kind (some policy) (
          Option.map
            (λ l. record policy { labels = l; ingress = ingress_rules tables kind app.spec })
            (put_in_read "primehub.io/group" (group_label tables app.spec) labels))
  unfolding put_in_read IsUnlabelled
  put_in_read-cases kind policy [] e = e
  put_in_read-cases kind policy (label ∷ labels) e = ingress_rules-Admits tables app kind _ refl

  written_policy-IsWritten :
      (kind : PolicyKind) (old : Option NetworkPolicy)
      → IsWritten kind old (written_policy tables faults app kind old)
  unfolding built_policy updated_policy
  written_policy-IsWritten kind none = ingress_rules-Admits tables app kind _ refl
  written_policy-IsWritten kind (some policy) = put_in_read-cases kind policy policy.labels refl

  -- Both policies admit what they are to admit, or one of those that were there has no labels.
  unfoldable pub AdmitBoth : AppCluster Q → Option (Step (AppCluster Q)) → Type 0
  AdmitBoth old none = IsUnlabelled old.group_policy ⊎ IsUnlabelled old.proxy_policy
  AdmitBoth old (some step) =
      Admits tables group_policy app step.cluster.group_policy
      × Admits tables proxy_policy app step.cluster.proxy_policy

  write_proxy-AdmitBoth :
      (old cluster : AppCluster Q) (proxy : Option NetworkPolicy)
      → faults.write_proxy_policy ≡ none
      → Admits tables group_policy app cluster.group_policy
      → IsWritten proxy_policy old.proxy_policy proxy
      → AdmitBoth old (write_proxy_policy tables faults app cluster proxy)
  unfolding AdmitBoth
  write_proxy-AdmitBoth old cluster none writes h k = inr k
  write_proxy-AdmitBoth old cluster (some policy) writes h k =
      attempt-cluster
        (λ (c : AppCluster Q).
          Admits tables group_policy app c.group_policy
          × Admits tables proxy_policy app c.proxy_policy)
        faults.write_proxy_policy _ _ writes (h, k)

  write_group-AdmitBoth :
      (cluster : AppCluster Q) (group proxy : Option NetworkPolicy)
      → faults.write_group_policy ≡ none
      → faults.write_proxy_policy ≡ none
      → IsWritten group_policy cluster.group_policy group
      → IsWritten proxy_policy cluster.proxy_policy proxy
      → AdmitBoth cluster (write_group_policy tables faults app cluster group proxy)
  unfolding AdmitBoth
  write_group-AdmitBoth cluster none proxy writes_group writes_proxy h k = inl h
  write_group-AdmitBoth cluster (some policy) proxy writes_group writes_proxy h k =
      write_proxy-AdmitBoth cluster _ proxy writes_proxy
        (attempt-cluster (λ (c : AppCluster Q). Admits tables group_policy app c.group_policy)
          faults.write_group_policy _ _ writes_group h)
        k

  -- Where the calls for the network policies succeed, reconcileNetworkPolicy panics only if a policy that
  -- was there has no labels. Else the cluster has both policies after it, whether or not it had them: the
  -- one admits exactly the pods labelled with the escaped name of the group of the application, and the
  -- other exactly those labelled as the console or the GraphQL server, at the protocols and target ports
  -- of the service.
  pub reconcile_network_policy-Admit :
      (cluster : AppCluster Q)
      → faults.get_group_policy ≡ none
      → faults.get_proxy_policy ≡ none
      → faults.write_group_policy ≡ none
      → faults.write_proxy_policy ≡ none
      → AdmitBoth cluster (reconcile_network_policy tables faults app cluster)
  unfolding reconcile_network_policy
  reconcile_network_policy-Admit cluster no_group no_proxy writes_group writes_proxy =
      unless_error-none (AdmitBoth cluster) faults.get_group_policy _ _ no_group (
        unless_error-none (AdmitBoth cluster) faults.get_proxy_policy _ _ no_proxy (
          write_group-AdmitBoth cluster _ _ writes_group writes_proxy
            (written_policy-IsWritten group_policy cluster.group_policy)
            (written_policy-IsWritten proxy_policy cluster.proxy_policy)))

  -- A step that ends without an error, or a panic.
  unfoldable pub IsQuiet : Option (Step (AppCluster Q)) → Type 0
  IsQuiet none = Unit
  IsQuiet (some step) = step.error ≡ none

  write_group-IsQuiet :
      (cluster : AppCluster Q) (group proxy : Option NetworkPolicy)
      → faults.write_proxy_policy ≡ none
      → IsQuiet (write_group_policy tables faults app cluster group proxy)
  unfolding IsQuiet
  write_group-IsQuiet cluster none proxy writes = tt
  write_group-IsQuiet cluster (some policy) none writes = tt
  write_group-IsQuiet cluster (some policy) (some other) writes =
      hidden faults.write_proxy_policy _ _ writes
    where
      hidden :
          (o : Option Error) (old new : AppCluster Q) → o ≡ none → (attempt o old new).error ≡ none
      hidden none old new e = refl
      hidden (some x) old new e = absurd (none-ne-some x (sym e))

  -- Where the two Get calls and the write of the second network policy succeed, reconcileNetworkPolicy
  -- returns no error or panics, whatever becomes of the write of the first.
  pub reconcile_network_policy-hides :
      (cluster : AppCluster Q)
      → faults.get_group_policy ≡ none
      → faults.get_proxy_policy ≡ none
      → faults.write_proxy_policy ≡ none
      → IsQuiet (reconcile_network_policy tables faults app cluster)
  unfolding reconcile_network_policy
  reconcile_network_policy-hides cluster no_group no_proxy writes_proxy =
      unless_error-none IsQuiet faults.get_group_policy _ _ no_group (
        unless_error-none IsQuiet faults.get_proxy_policy _ _ no_proxy
          (write_group-IsQuiet cluster _ _ writes_proxy))
