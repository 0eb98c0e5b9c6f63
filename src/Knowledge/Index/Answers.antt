-- ===== src/Knowledge/Index/Answers.antt =====
-- What RagClient reads of an answer of the RAG service (services/knowledge_service/src/rag_client.cc).
use device_ops.Prelude.{◌≡◌, refl, ◌⊎◌, inl, inr, true, false, none, some, arith}
use device_ops.Str.{Str, lit}
use device_ops.Odb.Transaction.{returned, Outcome-cases, Reply, accepted, rejected}
use device_ops.Rag.Reading.{RagJson}
use device_ops.Knowledge.Index.{task_id_of, parse_task_id, task_or_missing, read_task}

module _ {V D : Type 0} (j : RagJson V D) where
  -- The body is JSON with a member `task_id` whose text is the task id.
  abbrev pub HasTask : Str → Str → Type 0
  HasTask body task_id =
      (root : V) × (task : V) × (root' : V) × (j.parse body ≡ returned (accepted root))
      × (j.is_member root (lit "task_id") ≡ returned true)
      × (j.index root (lit "task_id") ≡ returned (task, root'))
      × (j.as_string task ≡ returned task_id)

  -- The body is not JSON, or has no member `task_id`.
  abbrev pub HasNoTask : Str → Type 0
  HasNoTask body =
      ((errors : Str) × (j.parse body ≡ returned (rejected errors)))
      ⊎ ((root : V) × (j.parse body ≡ returned (accepted root))
          × (j.is_member root (lit "task_id") ≡ returned false))

  task_id_of-some :
      (root : V) (task_id : Str)
      → task_id_of j root true ≡ returned (some task_id)
      → (task : V) × (root' : V) × (j.index root (lit "task_id") ≡ returned (task, root'))
        × (j.as_string task ≡ returned task_id)
  unfolding task_id_of
  task_id_of-some root task_id h = elim (Outcome-cases (j.index root (lit "task_id"))) [
    | inl (e, indexed) ↦ absurd (ground (arith, indexed))
    | inr ((task, root'), indexed) ↦ elim (Outcome-cases (j.as_string task)) [
      | inl (e, read) ↦ absurd (ground (arith, indexed, read))
      | inr (found, read) ↦ (task, root', indexed, ground (arith, indexed, read))
    ]
  ]

  parse_task_id-some :
      (body task_id : Str) → parse_task_id j body ≡ returned (some task_id) → HasTask body task_id
  unfolding parse_task_id
  parse_task_id-some body task_id h = elim (Outcome-cases (j.parse body)) [
    | inl (e, parsed) ↦ absurd (ground (arith, parsed))
    | inr (rejected errors, parsed) ↦ absurd (ground (arith, parsed))
    | inr (accepted root, parsed) ↦ elim (Outcome-cases (j.is_member root (lit "task_id"))) [
      | inl (e, there) ↦ absurd (ground (arith, parsed, there))
      | inr (false, there) ↦ absurd (unfold task_id_of in ground (arith, parsed, there))
      | inr (true, there) ↦
          let (task, root', indexed, read) =
            task_id_of-some root task_id (ground (arith, parsed, there)) in
          (root, task, root', parsed, there, indexed, read)
    ]
  ]

  task_id_of-none : (root : V) → task_id_of j root true ≡ returned none → ⊥
  unfolding task_id_of
  task_id_of-none root h = elim (Outcome-cases (j.index root (lit "task_id"))) [
    | inl (e, indexed) ↦ ground (arith, indexed)
    | inr ((task, root'), indexed) ↦ elim (Outcome-cases (j.as_string task)) [
      | inl (e, read) ↦ ground (arith, indexed, read)
      | inr (found, read) ↦ ground (arith, indexed, read)
    ]
  ]

  parse_task_id-none : (body : Str) → parse_task_id j body ≡ returned none → HasNoTask body
  unfolding parse_task_id
  parse_task_id-none body h = elim (Outcome-cases (j.parse body)) [
    | inl (e, parsed) ↦ absurd (ground (arith, parsed))
    | inr (rejected errors, parsed) ↦ inl (errors, parsed)
    | inr (accepted root, parsed) ↦ elim (Outcome-cases (j.is_member root (lit "task_id"))) [
      | inl (e, there) ↦ absurd (ground (arith, parsed, there))
      | inr (false, there) ↦ inr (root, parsed, there)
      | inr (true, there) ↦ absurd (task_id_of-none root (ground (arith, parsed, there)))
    ]
  ]

  pub read_task-accepted :
      (transfer : Reply Str) (task_id : Str)
      → read_task j transfer ≡ returned (accepted task_id)
      → (body : Str) × (transfer ≡ accepted body) × HasTask body task_id
  unfolding read_task task_or_missing
  read_task-accepted (rejected e) task_id h = absurd (ground arith)
  read_task-accepted (accepted body) task_id h = elim (Outcome-cases (parse_task_id j body)) [
    | inl (e, found) ↦ absurd (ground (arith, found))
    | inr (none, found) ↦ absurd (ground (arith, found))
    | inr (some task, found) ↦ (body, refl, parse_task_id-some body task_id (ground (arith, found)))
  ]

  pub read_task-rejected :
      (transfer : Reply Str) (e : Str)
      → read_task j transfer ≡ returned (rejected e)
      → (transfer ≡ rejected e)
        ⊎ ((body : Str) × (transfer ≡ accepted body)
            × HasNoTask body
            × (e ≡ lit "rag-service response missing task_id"))
  unfolding read_task task_or_missing
  read_task-rejected (rejected error) e h = inl (ground arith)
  read_task-rejected (accepted body) e h = elim (Outcome-cases (parse_task_id j body)) [
    | inl (thrown_e, found) ↦ absurd (ground (arith, found))
    | inr (some task, found) ↦ absurd (ground (arith, found))
    | inr (none, found) ↦ inr (body, refl, parse_task_id-none body found, ground (arith, found))
  ]
