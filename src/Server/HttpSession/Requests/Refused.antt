-- ===== src/Server/HttpSession/Requests/Refused.antt =====
-- The requests that `handle_request` of http_session.cpp refuses, by what a legal target is.
use gss.Base.{
  ℕ, ◌≡◌, ◌≢◌, ◌↔◌, refl, sym, ap, ◌∙◌, ◌⊎◌, inl, inr, true, false, ◌&&◌, [], ◌∷◌, ◌++◌, arith,
  Bool-cases,
}
use gss.Base.Text.{Text, codes, starts_with, contains}
use gss.Base.Try.{returned, or_raise, parse_error, type_error, >>=-returned}
use gss.Containers.Queue.{Queue}
use gss.Server.Task.{Task}
use gss.Server.Task.Json.{task_of}
use gss.Server.SharedState.{SharedState}
use gss.Server.HttpSession.Names.{file_path}
use gss.Server.HttpSession.Handler.{
  Request, Response, Verb, get, head, other, post, verb_eq, file, Opened, opened, no_such_file,
  failed, Environment, bad_request, illegal_target, post_task, json_response, serve_file,
  handle_request, file_response, not_found, server_error, admin_body,
}

-- A target that begins with a slash and has ".." nowhere in it.
abbrev pub Legal : Text → Type 0
Legal target =
    ((rest : Text) × (target ≡ b'/' ∷ rest))
    × ((before after : Text) → target ≢ before ++ (codes ".." ++ after))

starts_with-append : (needle after : Text) → starts_with needle (needle ++ after) ≡ true
unfolding starts_with
starts_with-append [] after = refl
starts_with-append (a ∷ needle) after = ground (arith, starts_with-append needle after)

contains-middle :
    (needle before after : Text) → contains needle (before ++ (needle ++ after)) ≡ true
unfolding contains starts_with
contains-middle [] [] [] = refl
contains-middle [] [] (c ∷ after) = refl
contains-middle (a ∷ needle) [] after = rw (starts_with-append (a ∷ needle) after)
contains-middle needle (b ∷ before) after = ground (arith, contains-middle needle before after)

starts_with_sound :
    (needle hay : Text) → starts_with needle hay ≡ true → (after : Text) × (hay ≡ needle ++ after)
unfolding starts_with
starts_with_sound [] hay e = (hay, refl)
starts_with_sound (a ∷ needle) [] e = cc e
starts_with_sound (a ∷ needle) (b ∷ hay) e =
    let (after, rest) = starts_with_sound needle hay (ground (arith, e)) in
    let same : b ≡ a = ground (arith, e) in (after, cc (same, rest))

contains_sound :
    (needle hay : Text)
    → contains needle hay ≡ true
    → (before : Text) × (after : Text) × (hay ≡ before ++ (needle ++ after))
unfolding contains
contains_sound needle [] e =
    let (after, found) = starts_with_sound needle [] e in ([], after, found)
contains_sound needle (b ∷ hay) e = elim (Bool-cases (starts_with needle (b ∷ hay))) [
  | inl t ↦ let (after, found) = starts_with_sound needle (b ∷ hay) t in ([], after, found)
  | inr without ↦
      let (before, after, found) = contains_sound needle hay (rw without at e) in
      (b ∷ before, after, ap (λ h. b ∷ h) found)
]

illegal_target-Legal : (target : Text) → illegal_target target ≡ false → Legal target
unfolding illegal_target
illegal_target-Legal [] e = cc e
illegal_target-Legal (c ∷ rest) e =
    let slash : c ≡ b'/' = ground (arith, e) in
    let clean : contains (codes "..") (c ∷ rest) ≡ false = ground (arith, e) in
    (
      (rest, ap (λ d. d ∷ rest) slash),
      λ before after found.
          cc (clean, ap (contains (codes "..")) found, contains-middle (codes "..") before after),
    )

illegal_target_refuted : (target : Text) → illegal_target target ≡ true → ¬ Legal target
unfolding illegal_target
illegal_target_refuted [] e ((rest, slash), clean) = cc slash
illegal_target_refuted (c ∷ rest) e ((rest', slash), clean) =
    elim (Bool-cases (contains (codes "..") (c ∷ rest))) [
      | inl t ↦
          let (before, after, found) = contains_sound (codes "..") (c ∷ rest) t in
          clean before after found
      | inr without ↦ let same : c ≡ b'/' = cc slash in ground (arith, e, without, same)
    ]

other_iff : (m : Verb) → (verb_eq m other ≡ true) ↔ (m ≡ other)
other_iff get = (λ e. cc e, λ e. cc e)
other_iff head = (λ e. cc e, λ e. cc e)
other_iff post = (λ e. cc e, λ e. cc e)
other_iff other = (λ e. refl, λ e. refl)

fine_not_bad : {n : ℕ} → n ≡ 200 → n ≢ 400
fine_not_bad e = omega arith

module _ (env : Environment) (queue : Queue (Task env.time)) where
  opened-status :
      (root : Text) (req : Request) (o : Opened)
      → (elim o as (λ o. Response) [
        | opened size ↦ file_response env (file_path root req.target) size req
        | no_such_file ↦ not_found env req.target req
        | failed message ↦ server_error env message req
      ]).status
        ≢ 400
  unfolding file_response not_found server_error
  opened-status root req (opened size) e = fine_not_bad refl e
  opened-status root req no_such_file e = let f : 404 ≡ 400 = e in omega arith
  opened-status root req (failed message) e = let f : 500 ≡ 400 = e in omega arith

  serve_file-status : (root : Text) (req : Request) → (serve_file env root req).status ≢ 400
  unfolding serve_file
  serve_file-status root req = opened-status root req (env.open_file (file_path root req.target))

  post_task-status :
      (req : Request) (s s' : SharedState queue) (res : Response)
      → post_task env queue req s ≡ returned (s', res)
      → res.status ≡ 200
  unfolding post_task json_response
  post_task-status req s s' res e =
      let (t, read, rest) = >>=-returned (task_of {time = env.time} env.json req.body) _ e in
      let (p, parsed, rest') =
        >>=-returned (or_raise parse_error (env.json.parse req.body)) _ rest in
      let (name, named, last) =
        >>=-returned (or_raise type_error (env.json.at p (codes "name"))) _ rest' in
      let same : json_response env (env.json.object ((codes "name", name) ∷ [])) req ≡ res =
        cc last in
      sym (ap (λ r. r.status) same)

  -- A request of a known method and with a legal target is not answered by 400.
  answered-status :
      (root : Text) (req : Request) (s s' : SharedState queue) (res : Response)
      → verb_eq req.method other ≡ false
      → illegal_target req.target ≡ false
      → handle_request env queue root req s ≡ returned (s', res)
      → res.status ≢ 400
  unfolding handle_request json_response
  answered-status root req s s' res known legal e =
      elim (Bool-cases (verb_eq req.method post && contains (codes "/api/tasks") req.target)) [
        | inl t ↦ fine_not_bad (post_task-status req s s' res (rw (known, legal, t) at e))
        | inr t ↦
            elim (Bool-cases (verb_eq req.method get && contains (codes "/api/admin") req.target)) [
              | inl u ↦
                  let same : json_response env (admin_body env queue s) req ≡ res =
                    cc (rw (known, legal, t, u) at e) in
                  fine_not_bad (sym (ap (λ r. r.status) same))
              | inr u ↦
                  let same : serve_file env root req ≡ res = cc (rw (known, legal, t, u) at e) in
                  λ bad. serve_file-status root req (ap (λ r. r.status) same ∙ bad)
            ]
      ]

  Legal-refuses :
      (root : Text) (req : Request) (s : SharedState queue)
      → (req.method ≡ other) ⊎ (¬ Legal req.target)
      → (res : Response) × (handle_request env queue root req s ≡ returned (s, res))
        × (res.status ≡ 400)
        × ((path : Text) → res.body ≢ file path)
  unfolding handle_request bad_request
  Legal-refuses root req s bad = elim (Bool-cases (verb_eq req.method other)) [
    | inl t ↦ rw t (_, refl, refl, λ path e. cc)
    | inr known ↦ elim (Bool-cases (illegal_target req.target)) [
      | inl illegal ↦ rw (known, illegal) (_, refl, refl, λ path e. cc)
      | inr legal ↦ elim bad [
        | inl m ↦ cc ((other_iff req.method).1 m, known)
        | inr bad_target ↦ absurd (bad_target (illegal_target-Legal req.target legal))
      ]
    ]
  ]

  refused-Legal :
      (root : Text) (req : Request) (s s' : SharedState queue) (res : Response)
      → handle_request env queue root req s ≡ returned (s', res)
      → res.status ≡ 400
      → (req.method ≡ other) ⊎ (¬ Legal req.target)
  refused-Legal root req s s' res e refused = elim (Bool-cases (verb_eq req.method other)) [
    | inl t ↦ inl ((other_iff req.method).0 t)
    | inr known ↦ elim (Bool-cases (illegal_target req.target)) [
      | inl illegal ↦ inr (illegal_target_refuted req.target illegal)
      | inr legal ↦ absurd (answered-status root req s s' res known legal e refused)
    ]
  ]

  -- A request gets an answer of 400 if and only if its method is neither GET, HEAD nor POST, or its
  -- target is not a slash and what follows, or has ".." in it; and if and only if it gets such an
  -- answer without a file and with the shared state left as it is.
  pub handle_request-Legal :
      (root : Text) (req : Request) (s : SharedState queue)
      → (((s' : SharedState queue) × (res : Response) × (handle_request env queue root req s
              ≡ returned (s', res))
            × (res.status ≡ 400))
          ↔ ((req.method ≡ other) ⊎ (¬ Legal req.target)))
        × (((s' : SharedState queue) × (res : Response) × (handle_request env queue root req s
                ≡ returned (s', res))
              × (res.status ≡ 400))
            ↔ ((res : Response) × (handle_request env queue root req s ≡ returned (s, res))
                × (res.status ≡ 400)
                × ((path : Text) → res.body ≢ file path)))
  handle_request-Legal root req s = (
    (
      λ (s', res, e, bad). refused-Legal root req s s' res e bad,
      λ no_good. let (res, e, bad, _) = Legal-refuses root req s no_good in (s, res, e, bad),
    ),
    (
      λ (s', res, e, bad). Legal-refuses root req s (refused-Legal root req s s' res e bad),
      λ (res, e, bad, _). (s, res, e, bad),
    ),
  )
