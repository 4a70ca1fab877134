-- ===== src/Sinks/Http/Client/Delivery.antt =====
-- What of a request goes out, and the fate of a batch.
use mathlib.Core.Option.{some-injective}
use slurm_tracer.Common.{
  ℕ, zero, suc, ◌≡◌, ◌≢◌, refl, ap, ◌∙◌, sym, subst, ◌⊎◌, inl, inr, true, false, not, List, [], ◌∷◌,
  ◌++◌, append_assoc, append-nil, Option, none, some, take, drop, Option-cases, Bool-cases,
}
use slurm_tracer.Text.{Bytes}
use slurm_tracer.Sinks.Http.Create.{Options}
use slurm_tracer.Sinks.Http.Socket.{
  Net, Sent, sent, interrupted, failed, sigpipe, Wrote, prepend, write_all, broken, headed,
  read_head, ensure_connected, drain, Received,
}
use slurm_tracer.Sinks.Http.Response.{Verdict}
use slurm_tracer.Sinks.Http.Client.{
  request, Posted, broken_off, finish, await, post, Fate, deliver_batch,
}

take-drop : (n : ℕ) (s : Bytes) → take n s ++ drop n s ≡ s
take-drop zero s = refl
take-drop (suc n) [] = refl
take-drop (suc n) (c ∷ s) = ap (λ x. c ∷ x) (take-drop n s)

-- What the loop has sent is the start of the text: all of it if it succeeds, and less if not.
pub record IsSent (bytes : Bytes) (w : Wrote) : Type 0 where
  pub left : Bytes
  pub parts : w.out ++ left ≡ bytes
  pub whole : w.ok ≡ true → left ≡ []
  pub partial : w.ok ≡ false → left ≢ []

prepend-eq-some :
    (before : Bytes) (o : Option Wrote) (w : Wrote)
    → prepend before o ≡ some w
    → (v : Wrote) × (o ≡ some v) × (w ≡ record { ok = v.ok; out = before ++ v.out; rest = v.rest })
prepend-eq-some before none w h = cc
prepend-eq-some before (some v) w h = (v, refl, sym (some-injective _ w h))

pub write_all-IsSent :
    (rs : List Sent) (bytes : Bytes) (w : Wrote) → write_all rs bytes ≡ some w → IsSent bytes w
unfolding write_all
write_all-IsSent rs [] w h =
    subst (IsSent []) (some-injective _ w h)
      (record { left = []; parts = refl; whole = λ e. refl; partial = λ e. cc })
write_all-IsSent [] (b ∷ bs) w h = cc
write_all-IsSent (sent n ∷ rs) (b ∷ bs) w h =
    let before = take (suc n) (b ∷ bs) in
    let behind = drop (suc n) (b ∷ bs) in
    let (v, e, f) = prepend-eq-some before (write_all rs behind) w h in
    let r = write_all-IsSent rs behind v e in
    rw f (record {
      left = r.left;
      parts =
          append_assoc before v.out r.left
          ∙ ap (λ x. before ++ x) r.parts
          ∙ take-drop (suc n) (b ∷ bs);
      whole = r.whole;
      partial = r.partial;
    })
write_all-IsSent (sigpipe ∷ rs) (b ∷ bs) w h = cc
write_all-IsSent (interrupted ∷ rs) (b ∷ bs) w h = write_all-IsSent rs (b ∷ bs) w h
write_all-IsSent (failed ∷ rs) (b ∷ bs) w h =
    subst (IsSent (b ∷ bs)) (some-injective _ w h)
      (record { left = b ∷ bs; parts = refl; whole = λ e. cc; partial = λ e f. cc })

none_ne_some {ℓ} : {A : Type ℓ} (a : A) → none ≢ some a
none_ne_some a h = cc

dropped_as : {f g : Fate} → g ≡ f → f.dropped ≡ g.dropped
dropped_as is = sym (ap (λ (x : Fate). x.dropped) is)

posts_as : {f g : Fate} → g ≡ f → f.posts ≡ g.posts
posts_as is = sym (ap (λ (x : Fate). x.posts) is)

finish-out :
    (v : Verdict) (have fd : ℕ) (out : Bytes) (rs : List Received) (p : Posted)
    → finish v have fd out rs ≡ some p
    → p.out ≡ out
unfolding finish
finish-out v have fd out rs p h = elim (Option-cases v.want) [
  | inl e ↦ sym (ap (λ (q : Posted). q.out) (some-injective _ p (rw (e, finish) at h)))
  | inr (want, e) ↦ elim (Option-cases (drain have want rs)) [
    | inl f ↦ absurd (none_ne_some p (rw (e, f, finish) at h))
    | inr (r, f) ↦ sym (ap (λ (q : Posted). q.out) (some-injective _ p (rw (e, f, finish) at h)))
  ]
]

await-out :
    (wild : Option ℕ) (fd : ℕ) (out : Bytes) (rs : List Received) (p : Posted)
    → await wild fd out rs ≡ some p
    → p.out ≡ out
unfolding await
await-out wild fd out rs p h = elim (Option-cases (read_head [] rs)) [
  | inl e ↦ absurd (none_ne_some p (rw (e, await) at h))
  | inr (broken rest, e) ↦
      sym (ap (λ (q : Posted). q.out) (some-injective _ p (rw (e, await) at h)))
  | inr (headed buf i rest, e) ↦ finish-out _ _ fd out rest p (rw (e, await) at h)
]

broken_off_fails :
    (out : Bytes) (rs : List Received) (p : Posted) → broken_off out rs ≡ p → p.ok ≢ true
broken_off_fails out rs p e h = cc

-- A post that succeeds had a connection, and the bytes that went out are the whole request.
post-out :
    (wild : Option ℕ) (opt : Options) (net : Net) (fd : Option ℕ) (body : Bytes) (p : Posted)
    → post wild opt net fd body ≡ some p
    → p.ok ≡ true
    → p.out ≡ request opt body
unfolding post
post-out wild opt net fd body p h ok = elim (Option-cases (ensure_connected net.addresses fd)) [
  | inl e ↦ absurd (broken_off_fails [] net.recvs p (some-injective _ p (rw (e, post) at h)) ok)
  | inr (fd', e) ↦ elim (Option-cases (write_all net.sends (request opt body))) [
    | inl f ↦ absurd (none_ne_some p (rw (e, f, post) at h))
    | inr (w, f) ↦ elim (Bool-cases w.ok) [
      | inl g ↦
          let out_is = await-out wild fd' w.out net.recvs p (rw (e, f, g, post) at h) in
          let s = write_all-IsSent net.sends (request opt body) w f in
          out_is ∙ sym (append-nil w.out) ∙ ap (λ x. w.out ++ x) (sym (s.whole g)) ∙ s.parts
      | inr g ↦
          absurd
            (broken_off_fails w.out net.recvs p (some-injective _ p (rw (e, f, g, post) at h)) ok)
    ]
  ]
]

-- A batch with which the worker is done has been posted once or twice, and there are three ways. It is not dropped and the one post
-- has sent it whole; it is not dropped and the second of two posts has sent it whole; or it is dropped, and
-- there were two posts.
pub deliver_batch_lem :
    (wild : Option ℕ) (opt : Options) (net again : Net) (fd : Option ℕ) (body : Bytes) (f : Fate)
    → deliver_batch wild opt net again fd body ≡ some f
    → ((f.dropped ≡ false) × (f.posts ≡ request opt body ∷ []))
      ⊎ (((f.dropped ≡ false) × (first : Bytes) × (f.posts ≡ first ∷ request opt body ∷ []))
          ⊎ ((f.dropped ≡ true) × (first second : Bytes) × (f.posts ≡ first ∷ second ∷ [])))
unfolding deliver_batch
deliver_batch_lem wild opt net again fd body f h = elim (Option-cases (post wild opt net fd body)) [
  | inl e ↦ absurd (none_ne_some f (rw (e, deliver_batch) at h))
  | inr (p, e) ↦ elim (Bool-cases p.ok) [
    | inl g ↦
        let is = some-injective _ f (rw (e, g, deliver_batch) at h) in
        let one = ap (λ x. x ∷ []) (post-out wild opt net fd body p e g) in
        inl (dropped_as is, posts_as is ∙ one)
    | inr g ↦ elim (Option-cases (post wild opt again none body)) [
      | inl k ↦ absurd (none_ne_some f (rw (e, g, k, deliver_batch) at h))
      | inr (q, k) ↦
          let is = some-injective _ f (rw (e, g, k, deliver_batch) at h) in
          elim (Bool-cases q.ok) [
            | inl ok ↦
                let two = ap (λ x. p.out ∷ x ∷ []) (post-out wild opt again none body q k ok) in
                inr (inl (dropped_as is ∙ ap not ok, p.out, posts_as is ∙ two))
            | inr bad ↦ inr (inr (dropped_as is ∙ ap not bad, p.out, q.out, posts_as is))
          ]
    ]
  ]
]
