-- ===== src/Api/Kube.antt =====
-- The fields of the Kubernetes objects that the operator reads or writes (the types themselves are
-- declared by k8s.io/api), and the API errors it tells apart.
use kangal_patch.Prelude.{◌≡◌, ℕ, Bool, String, List, Option, Dict, concat, ◌∷◌, []}

-- What apierrors.Is… and errors.Is look for behind the wrapping of `fmt.Errorf` with %w.
pub data ErrorKind : Type 0 where
  not_found already_exists too_many_requests unmanaged_pods unknown_talos image_missing : ErrorKind
  other : ErrorKind

pub record Error : Type 0 where
  pub kind : ErrorKind
  pub text : String

pub data Result {ℓ} (A : Type ℓ) : Type ℓ where
  ok : A → Result A
  err : Error → Result A

pub ok-injective {ℓ} : {A : Type ℓ} {a b : A} → ok a ≡ ok b → a ≡ b
ok-injective h = cc

pub err-ne-ok {ℓ} : {A : Type ℓ} {e : Error} {a : A} → err e ≡ ok a → ⊥
err-ne-ok h = cc

-- fmt.Errorf("…: %w", e).
unfoldable pub wrap : String → Error → Error
wrap s e = record e { text = concat (s ∷ ": " ∷ e.text ∷ []) }

-- fmt.Errorf with nothing wrapped.
abbrev pub errorf : String → Error
errorf s = record { kind = other; text = s }

-- metav1.LabelSelector.
pub record SelectorTerm : Type 0 where
  pub key : String
  pub operator : String
  pub values : List String

pub record LabelSelector : Type 0 where
  pub match_labels : Dict String
  pub match_expressions : List SelectorTerm

pub data AddressType : Type 0 where
  internal_ip other_address : AddressType

pub record NodeAddress : Type 0 where
  pub type : AddressType
  pub address : String

-- A condition of a node: whether it is the Ready one, and whether its status is True.
pub record NodeCondition : Type 0 where
  pub is_ready_type : Bool
  pub is_true : Bool

pub record Node : Type 0 where
  pub name : String
  pub labels : Dict String
  pub annotations : Dict String
  pub unschedulable : Bool
  pub addresses : List NodeAddress
  pub conditions : List NodeCondition
  pub kubelet_version : String
  pub boot_id : String

pub data PodPhase : Type 0 where
  pod_pending pod_running pod_succeeded pod_failed pod_unknown : PodPhase

pub record OwnerReference : Type 0 where
  pub kind : String
  pub controller : Bool

pub record ContainerStatus : Type 0 where
  pub image : String
  pub ready : Bool

pub record Pod : Type 0 where
  pub namespace : String
  pub name : String
  pub labels : Dict String
  pub annotations : Dict String
  pub owners : List OwnerReference
  pub deletion_timestamp : Option ℕ
  pub phase : PodPhase
  pub container_statuses : List ContainerStatus

pub record Secret : Type 0 where
  pub content : Dict String

pub record DaemonSet : Type 0 where
  pub container_images : List String
  pub generation : ℕ
  pub observed_generation : ℕ
  pub desired_scheduled : ℕ
  pub updated_scheduled : ℕ
  pub number_ready : ℕ

pub record Lease : Type 0 where
  pub name : String
  pub namespace : String
  pub labels : Dict String
  pub holder : String
  pub acquire_time : ℕ
