-- ===== src/Deploy/Deployer/Resources.antt =====
-- builder/deploy/deployer.go, `CheckResource` and `CheckResourceAvailable`: whether a node of a cluster
-- has room for a hardware. Floating point is a parameter: `fits mem available` is
-- `float32(mem) <= available`, and `trunc` is the conversion to `int`.
use csghub_server.Prelude.{
  ap, text_eq_iff, ◌∙◌, Option-cases, arith, Text, ℕ, ℤ, pos, negsuc, ◌+◌, ◌-◌, ◌*◌, Bool, true,
  false, ◌&&◌, Option, none, some, List, [], ◌∷◌, if◌then◌else◌, ◌==◌, ltb, leb, ◌≡◌, refl,
  is_empty, text_eq, In, here, there, Bool-cases, inl, inr, ◌⊎◌, &&_true,
}

-- `strings.Replace(s, "Gi", "", -1)`
unfoldable pub without_gi : Text → Text
without_gi [] = []
without_gi (c ∷ []) = c ∷ []
without_gi (c ∷ d ∷ s) =
    let skipped = without_gi s in
    let kept = without_gi (d ∷ s) in if c == b'G' && d == b'i' then skipped else c ∷ kept

abbrev pub is_digit : ℕ → Bool
is_digit c = leb b'0' c && leb c b'9'

unfoldable pub digits : ℕ → Text → Option ℕ
digits n [] = some n
digits n (c ∷ s) = let rest = digits (10 * n + (c - b'0')) s in if is_digit c then rest else none

abbrev negated : ℕ → ℤ
negated n = if n == 0 then pos 0 else negsuc (n - 1)

-- The range of a 64-bit `int`
abbrev in_range : Bool → Option ℕ → Option ℤ
in_range minus none = none
in_range false (some n) = if ltb n 9223372036854775808 then some (pos n) else none
in_range true (some n) = if leb n 9223372036854775808 then some (negated n) else none

abbrev at_least_one : Bool → Text → Option ℤ
at_least_one minus [] = none
at_least_one minus (c ∷ s) = in_range minus (digits 0 (c ∷ s))

-- `strconv.Atoi`
unfoldable pub atoi : Text → Option ℤ
atoi [] = none
atoi (c ∷ s) =
    if c == b'-'
    then at_least_one true s
    else if c == b'+'
    then at_least_one false s
    else at_least_one false (c ∷ s)

abbrev pub int_le : ℤ → ℤ → Bool
int_le (pos a) (pos b) = leb a b
int_le (pos a) (negsuc b) = false
int_le (negsuc a) (pos b) = true
int_le (negsuc a) (negsuc b) = leb b a

pub record Hardware : Type 0 where
  pub memory : Text
  pub gpu_num : Text
  pub gpu_type : Text
  pub cpu_num : Text

pub data Checked : Type 0 where
  available not_enough no_clusters failed_list : Checked

module _ (Float32 Float64 : Type 0) (fits : ℤ → Float32 → Bool) (trunc : Float64 → ℤ) where
  pub record NodeResourceInfo : Type 0 where
    pub xpu_model : Text
    pub available_cpu : Float64
    pub available_xpu : ℤ
    pub available_mem : Float32

  -- The answer of the loop at a node: `none` goes on with the next one.
  abbrev with_numbers : Hardware → NodeResourceInfo → Option ℤ → Option ℤ → Option Bool
  with_numbers h n none cpu = some false
  with_numbers h n (some gpu) none = some false
  with_numbers h n (some gpu) (some cpu) =
      if int_le gpu n.available_xpu
        && (text_eq h.gpu_type n.xpu_model && int_le cpu (trunc n.available_cpu))
      then some true
      else none

  unfoldable pub check_node : Hardware → ℤ → NodeResourceInfo → Option Bool
  check_node h mem n =
      if fits mem n.available_mem
      then (if is_empty h.gpu_num
          then some true
          else with_numbers h n (atoi h.gpu_num) (atoi h.cpu_num))
      else none

  abbrev decide : Option Bool → Bool → Bool
  decide none rest = rest
  decide (some b) rest = b

  unfoldable pub check_nodes : Hardware → ℤ → List NodeResourceInfo → Bool
  check_nodes h mem [] = false
  check_nodes h mem (n ∷ ns) = decide (check_node h mem n) (check_nodes h mem ns)

  abbrev with_memory : Hardware → List NodeResourceInfo → Option ℤ → Bool
  with_memory h ns none = false
  with_memory h ns (some mem) = check_nodes h mem ns

  unfoldable pub check_resource : Hardware → List NodeResourceInfo → Bool
  check_resource h ns = with_memory h ns (atoi (without_gi h.memory))

  -- A node that has the memory and, if the hardware asks for GPUs, the GPUs of that type and the CPUs.
  pub record HasRoom (h : Hardware) (mem : ℤ) (n : NodeResourceInfo) : Type 0 where
    pub memory : fits mem n.available_mem ≡ true
    pub accelerators :
        (is_empty h.gpu_num ≡ true)
        ⊎ ((gpu : ℤ) × (cpu : ℤ) × (atoi h.gpu_num ≡ some gpu)
            × (atoi h.cpu_num ≡ some cpu)
            × (int_le gpu n.available_xpu ≡ true)
            × (h.gpu_type ≡ n.xpu_model)
            × (int_le cpu (trunc n.available_cpu) ≡ true))

  abbrev pub Roomy : Hardware → List NodeResourceInfo → Type 0
  Roomy h ns =
      (mem : ℤ) × (atoi (without_gi h.memory) ≡ some mem)
      × (n : NodeResourceInfo) × In n ns
      × HasRoom h mem n

  abbrev Numbers : Hardware → NodeResourceInfo → Option ℤ → Option ℤ → Type 0
  Numbers h n g c =
      (gpu : ℤ) × (cpu : ℤ) × (g ≡ some gpu)
      × (c ≡ some cpu)
      × (int_le gpu n.available_xpu ≡ true)
      × (h.gpu_type ≡ n.xpu_model)
      × (int_le cpu (trunc n.available_cpu) ≡ true)

  with_numbers-yes :
      (h : Hardware) (n : NodeResourceInfo) (g c : Option ℤ)
      → with_numbers h n g c ≡ some true
      → Numbers h n g c
  with_numbers-yes h n none c e = absurd (ground (arith, e))
  with_numbers-yes h n (some gpu) none e = absurd (ground (arith, e))
  with_numbers-yes h n (some gpu) (some cpu) e =
      elim (Bool-cases (
        int_le gpu n.available_xpu
        && (text_eq h.gpu_type n.xpu_model && int_le cpu (trunc n.available_cpu)))) [
          | inr no' ↦ absurd (cc (rw no' at e))
          | inl yes' ↦
              let both = &&_true _ _ yes' in
              let rest = &&_true _ _ both.1 in
              (gpu, cpu, refl, refl, both.0, (text_eq_iff h.gpu_type n.xpu_model).0 rest.0, rest.1)
        ]

  check_node-HasRoom :
      (h : Hardware) (mem : ℤ) (n : NodeResourceInfo)
      → check_node h mem n ≡ some true
      → HasRoom h mem n
  unfolding check_node
  check_node-HasRoom h mem n e = elim (Bool-cases (fits mem n.available_mem)) [
    | inr no' ↦ absurd (cc (rw no' at e))
    | inl room ↦ elim (Bool-cases (is_empty h.gpu_num)) [
      | inl none' ↦ record { memory = room; accelerators = inl none' }
      | inr some' ↦ record {
        memory = room;
        accelerators = inr (with_numbers-yes h n _ _ (rw (room, some') at e));
      }
    ]
  ]

  check_nodes-HasRoom :
      (h : Hardware) (mem : ℤ) (ns : List NodeResourceInfo)
      → check_nodes h mem ns ≡ true
      → (n : NodeResourceInfo) × In n ns × HasRoom h mem n
  unfolding check_nodes
  check_nodes-HasRoom h mem [] e = absurd (cc)
  check_nodes-HasRoom h mem (n ∷ ns) e = elim (Option-cases (check_node h mem n)) [
    | inl no' ↦
        let (m, m_in, room) = check_nodes-HasRoom h mem ns (rw no' at e) in (m, there m_in, room)
    | inr (b, eb) ↦ (n, here, check_node-HasRoom h mem n (eb ∙ ap some (rw eb at e)))
  ]

  -- If `CheckResource` says yes, the memory that is asked for is a number, and one of the nodes has
  -- it, and, if GPUs are asked for, has also the number and the type of GPUs and the CPUs.
  pub check_resource-Roomy :
      (h : Hardware) (ns : List NodeResourceInfo) → check_resource h ns ≡ true → Roomy h ns
  unfolding check_resource
  check_resource-Roomy h ns e = elim (Option-cases (atoi (without_gi h.memory))) [
    | inl no' ↦ absurd (cc (rw no' at e))
    | inr (mem, em) ↦
        let (n, n_in, room) = check_nodes-HasRoom h mem ns (rw em at e) in (mem, em, n, n_in, room)
  ]
