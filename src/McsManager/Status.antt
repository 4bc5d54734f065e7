-- ===== src/McsManager/Status.antt =====
-- What an answer says about an instance.
use rms_gate.Base.{
  ℕ, String, ◌≡◌, refl, ap, ◌∙◌, ◌↔◌, inl, inr, true, false, some, List, [], ◌∷◌, ◌++◌, arith, ◌==◌,
  Bool-cases, Option-cases, All, pos, str_eq,
}
use rms_gate.McsManager.{
  Config, Response, Instance, Service, list_address, find_status, get_instance_status,
}

-- The first entry with the uuid has status 3.
abbrev pub FirstRuns : String → List Instance → Type 0
FirstRuns uuid instances =
    (front : List Instance) × (inst : Instance) × (back : List Instance) × (instances
      ≡ front ++ (inst ∷ back))
    × All (λ x. str_eq x.instance_uuid uuid ≡ false) front
    × (str_eq inst.instance_uuid uuid ≡ true)
    × (inst.instance_status ≡ pos 3)

running-FirstRuns :
    (uuid : String) (instances : List Instance)
    → find_status uuid instances ≡ pos 3
    → FirstRuns uuid instances
unfolding find_status
running-FirstRuns uuid [] e = cc
running-FirstRuns uuid (inst ∷ rest) e = elim (Bool-cases (str_eq inst.instance_uuid uuid)) [
  | inl q ↦ ([], inst, rest, refl, tt, q, ground arith)
  | inr q ↦
      let (front, x, back, split, others, named, runs) =
        running-FirstRuns uuid rest (ground arith) in
      (inst ∷ front, x, back, ap (◌∷◌ inst) split, (q, others), named, runs)
]

FirstRuns-running :
    (uuid : String) (front back : List Instance) (inst : Instance)
    → All (λ x. str_eq x.instance_uuid uuid ≡ false) front
    → str_eq inst.instance_uuid uuid ≡ true
    → inst.instance_status ≡ pos 3
    → find_status uuid (front ++ (inst ∷ back)) ≡ pos 3
unfolding find_status
FirstRuns-running uuid [] back inst h e q = ground arith
FirstRuns-running uuid (x ∷ front) back inst (n, h) e q =
    ground (arith, FirstRuns-running uuid front back inst h e q)

-- What a good answer is, and what it decodes to.
abbrev pub Answers : Service → Config → List Instance → Type 0
Answers sv cfg instances =
    (resp : Response) × (body : List ℕ) × (sv.get (list_address cfg) ≡ some resp)
    × (resp.status_code ≡ 200)
    × (resp.body ≡ some body)
    × (sv.instances_of body ≡ some instances)

-- An instance is taken to run if and only if the service answers with status 200 and a body that
-- decodes to a list in which the first entry with the uuid has status 3.
pub get_instance_status_iff :
    (sv : Service) (cfg : Config) (uuid : String)
    → (get_instance_status sv cfg uuid ≡ (pos 3, false))
      ↔ ((instances : List Instance) × Answers sv cfg instances × FirstRuns uuid instances)
unfolding get_instance_status
get_instance_status_iff sv cfg uuid = (forth, back)
  where
    forth :
        get_instance_status sv cfg uuid ≡ (pos 3, false)
        → (instances : List Instance) × Answers sv cfg instances × FirstRuns uuid instances
    forth e = elim (Option-cases (sv.get (list_address cfg))) [
      | inl g ↦ absurd (ground (arith, e, g))
      | inr (resp, g) ↦ elim (Bool-cases (resp.status_code == 200)) [
        | inr c ↦ absurd (ground (arith, e, g, c))
        | inl c ↦ elim (Option-cases resp.body) [
          | inl b ↦ absurd (ground (arith, e, g, c, b))
          | inr (body, b) ↦ elim (Option-cases (sv.instances_of body)) [
            | inl d ↦ absurd (ground (arith, e, g, c, b, d))
            | inr (instances, d) ↦ (
              instances,
              (resp, body, g, ground (arith, c), b, d),
              running-FirstRuns uuid instances (ground (arith, e, g, c, b, d)),
            )
          ]
        ]
      ]
    ]

    back :
        (instances : List Instance) × Answers sv cfg instances × FirstRuns uuid instances
        → get_instance_status sv cfg uuid ≡ (pos 3, false)
    back (instances, (resp, body, g, c, b, d), (front, inst, rest, split, others, named, runs)) =
        let r : find_status uuid instances ≡ pos 3 =
          ap (find_status uuid) split ∙ FirstRuns-running uuid front rest inst others named runs in
        rw (g, get_instance_status) (rw (b, d, r, get_instance_status) (ground (arith, c)))

-- A status of 3 never stands beside an error.
pub get_instance_status-running :
    (sv : Service) (cfg : Config) (uuid : String)
    → (get_instance_status sv cfg uuid).0 ≡ pos 3
    → get_instance_status sv cfg uuid ≡ (pos 3, false)
unfolding get_instance_status
get_instance_status-running sv cfg uuid e = elim (Option-cases (sv.get (list_address cfg))) [
  | inl g ↦ absurd (ground (arith, e, g))
  | inr (resp, g) ↦ elim (Bool-cases (resp.status_code == 200)) [
    | inr c ↦ absurd (ground (arith, e, g, c))
    | inl c ↦ elim (Option-cases resp.body) [
      | inl b ↦ absurd (ground (arith, e, g, c, b))
      | inr (body, b) ↦ elim (Option-cases (sv.instances_of body)) [
        | inl d ↦ absurd (ground (arith, e, g, c, b, d))
        | inr (instances, d) ↦ ground (arith, e, g, c, b, d)
      ]
    ]
  ]
]
