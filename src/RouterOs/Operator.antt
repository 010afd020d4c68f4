-- ===== src/RouterOs/Operator.antt =====
-- Operator entries outlive `setup`, whichever step fails, and `clear_default_route` takes down the
-- default route alone.
use snx_edge.Common.{
  ◌≡◌, refl, Bool, true, false, List, [], ◌∷◌, ◌++◌, Option, none, some, Text, text_eq, any, In,
  arith,
}
use snx_edge.RouterOs.Comment.{comment_is_legacy, comment_matches_kind, entry_comment}
use snx_edge.RouterOs.Comment.Laws.{IsTag, is_label, no_semicolon}
use snx_edge.RouterOs.Comment.Entries.{entry-not_legacy, entry-own_kind}
use snx_edge.RouterOs.Device.{RestPath, comment, Object, field, Device, Lawful}
use snx_edge.RouterOs.Client.{comment_such, such}
use snx_edge.RouterOs.Provisioner.{RouterOsConfig}
use snx_edge.RouterOs.Setup.{is_applied, migrate_legacy_objects, run_steps, steps, setup}
use snx_edge.RouterOs.Progress.{step_labels, run_steps-Progress, Progress-first}
use snx_edge.RouterOs.Survival.{steps-Keep, run_steps-Keeps, migrate-Keeps, finish-Keeps}

-- A part of the labels matches no more than all of them.
any-part :
    {A : Type 0} (p : A → Bool) (xs ys : List A) → any p (xs ++ ys) ≡ false → any p xs ≡ false
any-part p [] ys h = refl
any-part p (x ∷ xs) ys h = ground (arith, any-part p xs ys)

is_applied-part :
    (tag : Text) (xs ys : List Text) (o : Object)
    → is_applied tag (xs ++ ys) o ≡ false
    → is_applied tag xs o ≡ false
is_applied-part tag xs ys o h = such-part (field comment o) h
  where
    such-part :
        (c : Option Text)
        → such (λ c. any (λ k. comment_matches_kind c tag k) (xs ++ ys)) c ≡ false
        → such (λ c. any (λ k. comment_matches_kind c tag k) xs) c ≡ false
    such-part none h = refl
    such-part (some c) h = any-part (λ k. comment_matches_kind c tag k) xs ys h

first-is_applied :
    (tag : Text) (labels applied later : List Text) (o : Object)
    → applied ++ later ≡ labels
    → is_applied tag labels o ≡ false
    → is_applied tag applied o ≡ false
first-is_applied tag labels applied later o a h =
    is_applied-part tag applied later o (rw (← a) at h)

any-none :
    (tag kind note : Text) (labels : List Text)
    → IsTag tag
    → is_label kind ≡ true
    → no_semicolon note ≡ true
    → any (text_eq kind) labels ≡ false
    → any (λ k. comment_matches_kind (entry_comment tag kind (some note)) tag k) labels ≡ false
any-none tag kind note [] t l n h = refl
any-none tag kind note (k ∷ ks) t l n h =
    ground (arith, entry-own_kind tag kind k note t l n, any-none tag kind note ks t l n)

module _ (d : Device) (law : Lawful d) (client_tag : Text) (config : RouterOsConfig) where
  -- An object of a lawful router that is not legacy and whose comment matches none of the ten step
  -- kinds is still there after `setup`, whichever step fails and however the rollback ends.
  pub setup-Keeps :
      (o : Object) (q : RestPath) (ip : Text) (s : d.State)
      → comment_such (λ c. comment_is_legacy c client_tag) o ≡ false
      → is_applied config.comment_tag step_labels o ≡ false
      → In o (law.view s q)
      → In o (law.view (setup d client_tag config ip s).1 q)
  unfolding setup
  setup-Keeps o q ip s legacy m h =
      let s1 = (migrate_legacy_objects d client_tag s).1 in
      let done = run_steps (steps d client_tag config ip) s1 in
      let first : (later : List Text) × (done.0.applied ++ later ≡ step_labels) =
        (unfold steps in
          (Progress-first (steps d client_tag config ip) s1 done.0
            (run_steps-Progress (steps d client_tag config ip) s1))) in
      finish-Keeps d law o q client_tag config done.0 done.1
        (first-is_applied config.comment_tag step_labels done.0.applied first.0 o first.1 m)
        (run_steps-Keeps d law o q client_tag config (steps d client_tag config ip) s1
          (steps-Keep d law o q client_tag config ip)
          (migrate-Keeps d law o q client_tag config legacy s h))

  -- An entry whose comment is the one that `add_address` writes, for a kind of one label that is
  -- no step of `setup` and with a note that has no semicolon, is still on a lawful router after
  -- `setup`, whichever step fails and however the rollback ends; the client and the configuration
  -- have the same tag, of one field that names no kind.
  pub setup-keeps_entry :
      (o : Object) (q : RestPath) (ip : Text) (s : d.State) (kind note : Text)
      → client_tag ≡ config.comment_tag
      → IsTag client_tag
      → is_label kind ≡ true
      → any (text_eq kind) step_labels ≡ false
      → no_semicolon note ≡ true
      → field comment o ≡ some (entry_comment client_tag kind (some note))
      → In o (law.view s q)
      → In o (law.view (setup d client_tag config ip s).1 q)
  setup-keeps_entry o q ip s kind note same t l other n c h =
      setup-Keeps o q ip s (rw c (entry-not_legacy client_tag kind (some note) l))
        (rw (← same) (rw c (any-none client_tag kind note step_labels t l n other))) h
