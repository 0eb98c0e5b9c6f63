-- ===== src/Telemetry/History.antt =====
-- The repository against its specification: the list of the uploads that it was given.
use device_ops.Prelude.{
  ℤ, ◌≡◌, refl, sym, ap, ◌∙◌, Bool, true, false, Option, some, List, [], ◌∷◌, ◌++◌, append-nil,
  append_assoc, if◌then◌else◌, arith,
}
use device_ops.Str.{Str, str_eq, str_eq_iff}
use device_ops.StdMap.{StdMap, lookup, index_or, lookup-assign, index_or-assign}
use device_ops.Telemetry.{DeviceTelemetry, Repository, RedisSet, normalize, write_redis, upload}

-- What the repository promises to keep of a list of uploads, each with its time of arrival.
module _ {D : Type 0} where
  -- The uploads of one device, as they came.
  abbrev pub uploads_of : Str → List (DeviceTelemetry D × ℤ) → List (DeviceTelemetry D)
  uploads_of k [] = []
  uploads_of k ((telemetry, now) ∷ rest) =
      if str_eq telemetry.device_id k
      then normalize now telemetry ∷ uploads_of k rest
      else uploads_of k rest

  abbrev pub last_or :
      Option (DeviceTelemetry D) → List (DeviceTelemetry D) → Option (DeviceTelemetry D)
  last_or d [] = d
  last_or d (x ∷ xs) = last_or (some x) xs

  normalize-device_id :
      (now : ℤ) (telemetry : DeviceTelemetry D)
      → (normalize now telemetry).device_id ≡ telemetry.device_id
  unfolding normalize
  normalize-device_id now telemetry = ground arith

  joined :
      (b : Bool) (telemetry : DeviceTelemetry D) (now : ℤ) (rest : List (DeviceTelemetry D × ℤ))
      (k : Str)
      → (if b then normalize now telemetry ∷ [] else []) ++ uploads_of k rest
        ≡ (if b then normalize now telemetry ∷ uploads_of k rest else uploads_of k rest)
  joined true telemetry now rest k = refl
  joined false telemetry now rest k = refl

  newest :
      (b : Bool) (telemetry : DeviceTelemetry D) (now : ℤ) (rest : List (DeviceTelemetry D × ℤ))
      (k : Str) (old : Option (DeviceTelemetry D))
      → last_or (if b then some (normalize now telemetry) else old) (uploads_of k rest)
        ≡ last_or old (if b then normalize now telemetry ∷ uploads_of k rest else uploads_of k rest)
  newest true telemetry now rest k old = refl
  newest false telemetry now rest k old = refl

  at_key :
      (b : Bool) (id : Str) (n : DeviceTelemetry D) (k : Str)
      (h : StdMap (List (DeviceTelemetry D)))
      → (b ≡ true → id ≡ k)
      → (if b then index_or [] id h ++ n ∷ [] else index_or [] k h)
        ≡ index_or [] k h ++ (if b then n ∷ [] else [])
  at_key true id n k h same = ap (λ (i : Str). index_or [] i h ++ n ∷ []) (same refl)
  at_key false id n k h same = sym (append-nil (index_or [] k h))

-- The history that the repository holds of a device, empty for one that it has not seen.
unfoldable pub history_of : {D R : Type 0} → Str → Repository D R → List (DeviceTelemetry D)
history_of k s = index_or [] k s.history

module _ {D R : Type 0} (set : RedisSet R) (to_json : DeviceTelemetry D → Str) where
  unfoldable pub upload_all : List (DeviceTelemetry D × ℤ) → Repository D R → Repository D R
  upload_all [] s = s
  upload_all ((telemetry, now) ∷ rest) s = upload_all rest (upload set to_json telemetry now s)

  latest-write_redis :
      (t : DeviceTelemetry D) (s : Repository D R) → (write_redis set to_json t s).latest ≡ s.latest
  unfolding write_redis
  latest-write_redis t s = ground arith

  history-write_redis :
      (t : DeviceTelemetry D) (s : Repository D R)
      → (write_redis set to_json t s).history ≡ s.history
  unfolding write_redis
  history-write_redis t s = ground arith

  pub lookup-upload :
      (telemetry : DeviceTelemetry D) (now : ℤ) (s : Repository D R) (k : Str)
      → lookup k (upload set to_json telemetry now s).latest ≡ (
          if str_eq telemetry.device_id k
          then some (normalize now telemetry)
          else lookup k s.latest)
  unfolding upload
  lookup-upload telemetry now s k =
      let n = normalize now telemetry in
      ap (lookup k) (latest-write_redis n _)
      ∙ lookup-assign n.device_id k n s.latest
      ∙ ap (λ (id : Str). if str_eq id k then some n else lookup k s.latest)
          (normalize-device_id now telemetry)

  pub history_of-upload :
      (telemetry : DeviceTelemetry D) (now : ℤ) (s : Repository D R) (k : Str)
      → history_of k (upload set to_json telemetry now s)
        ≡ history_of k s
          ++ (if str_eq telemetry.device_id k then normalize now telemetry ∷ [] else [])
  unfolding upload history_of
  history_of-upload telemetry now s k =
      let n = normalize now telemetry in
      ap (index_or [] k) (history-write_redis n _)
      ∙ index_or-assign [] n.device_id k _ s.history
      ∙ ap
          (λ (id : Str).
            if str_eq id k then index_or [] id s.history ++ n ∷ [] else index_or [] k s.history)
          (normalize-device_id now telemetry)
      ∙ at_key (str_eq telemetry.device_id k) telemetry.device_id n k s.history
          (λ h. (str_eq_iff telemetry.device_id k).0 h)

  -- After any uploads, whatever Redis does: the history of a device is what it was, followed by the
  -- device's uploads in the order in which they came; its latest telemetry is the last of them, or
  -- what it was if there is none. Telemetry with no time of its own has the time of its arrival.
  pub upload_all_lem :
      (uploads : List (DeviceTelemetry D × ℤ)) (s : Repository D R) (k : Str)
      → let after = upload_all uploads s in
        (history_of k after ≡ history_of k s ++ uploads_of k uploads)
        × (lookup k after.latest ≡ last_or (lookup k s.latest) (uploads_of k uploads))
  unfolding upload_all
  upload_all_lem [] s k = (sym (append-nil (history_of k s)), refl)
  upload_all_lem ((telemetry, now) ∷ rest) s k =
      let (past, last) = upload_all_lem rest (upload set to_json telemetry now s) k in
      (
        past
            ∙ ap (λ (h : List (DeviceTelemetry D)). h ++ uploads_of k rest)
                (history_of-upload telemetry now s k)
            ∙ append_assoc (history_of k s) _ (uploads_of k rest)
            ∙ ap (λ (h : List (DeviceTelemetry D)). history_of k s ++ h)
                (joined (str_eq telemetry.device_id k) telemetry now rest k),
        last
            ∙ ap (λ (o : Option (DeviceTelemetry D)). last_or o (uploads_of k rest))
                (lookup-upload telemetry now s k)
            ∙ newest (str_eq telemetry.device_id k) telemetry now rest k (lookup k s.latest),
      )
