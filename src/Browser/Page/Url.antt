-- ===== src/Browser/Page/Url.antt =====
-- fs_ui/src/pages/FileBrowserPage.tsx: the directory on the page against the URL's path.
use mathlib.Core.Path.{subst}
use cuttlefish.Common.{
  String, true, false, List, [], ◌∷◌, Option, some, ◌≡◌, refl, sym, ◌∙◌, ◌⊎◌, inl, inr, get_elem?,
  str_eq, eq_iff, Bool-cases,
}
use cuttlefish.Common.Text.{is_truthy}
use cuttlefish.Types.{Entry}
use cuttlefish.FileSystem.{FileSystem, start}
use cuttlefish.FileSystem
use cuttlefish.FileSystem.Invariant.{Inv, start-Inv, step-Inv}
use cuttlefish.FileSystem.Order.{InOrder, start-InOrder, step-InOrder}
use cuttlefish.FileSystem.Refinement.{view}
use cuttlefish.FileSystem.Rows.{Fresh, Answers, Fits, step-Fresh, step-current_path, is_navigation}
use cuttlefish.Browser.{url_path, open_path}
use cuttlefish.Browser.Page.{
  Page, path_of, files_step, opened, set_url, opens, jump, Event, open_at, set_jump, go, location,
  set_view, sort_by, select, close, list_reply, detail_reply, step, run,
}

-- A listing that is answered is one for the path that was asked for.
abbrev pub Fitting : (String → List Entry → Type 0) → Page → Event → Type 0
Fitting P p (list_reply i o) = Answers P (get_elem? p.files.flights i) o
Fitting P p _ = Unit

abbrev pub Replies : (String → List Entry → Type 0) → Page → List Event → Type 0
Replies P p [] = Unit
Replies P p (e ∷ es) = Fitting P p e × Replies P (step p e) es

record Good (P : String → List Entry → Type 0) (p : Page) : Type 0 where
  inv : Inv p.files
  order : InOrder p.files
  fresh : Fresh P (view p.files)
  here : p.files.current_path ≡ path_of p

module _ (P : String → List Entry → Type 0) where
  navigate-Good :
      (path : String) (p : Page)
      → path ≡ path_of p
      → Inv p.files
      → InOrder p.files
      → Good P (files_step (FileSystem.navigate path) p)
  unfolding FileSystem.step view path_of FileSystem.navigate_to
  navigate-Good path p e v n = record {
    inv = step-Inv p.files (FileSystem.navigate path) v;
    order = step-InOrder p.files (FileSystem.navigate path) v n;
    fresh = inl refl;
    here = e;
  }

  files_step-Good :
      (e : FileSystem.Event) (p : Page)
      → is_navigation e ≡ false
      → Fits P p.files e
      → Good P p
      → Good P (files_step e p)
  unfolding path_of
  files_step-Good e p n f h = record {
    inv = step-Inv p.files e h.inv;
    order = step-InOrder p.files e h.inv h.order;
    fresh = step-Fresh P p.files e h.inv h.order f h.fresh;
    here = step-current_path p.files e h.inv h.order n ∙ h.here;
  }

  set_url-Good : (url : Option String) (p : Page) → Good P p → Good P (set_url url p)
  unfolding set_url path_of
  set_url-Good url p h = elim (Bool-cases (str_eq (url_path url p.prefixes) (path_of p))) [
    | inl e ↦ rw e (record {
      inv = h.inv;
      order = h.order;
      fresh = h.fresh;
      here = h.here ∙ sym ((eq_iff _ _).0 e);
    })
    | inr e ↦
        rw e (navigate-Good (url_path url p.prefixes) (record p { url = url }) refl h.inv h.order)
  ]

  opens-Good : (path : String) (p : Page) → Good P p → Good P (opens path p)
  unfolding opens open_path
  opens-Good path p h = elim (Bool-cases (str_eq path (path_of p))) [
    | inl e ↦ rw e (navigate-Good path p ((eq_iff path (path_of p)).0 e) h.inv h.order)
    | inr e ↦ rw e (set_url-Good (some path) p h)
  ]

  jump-Good : (p : Page) → Good P p → Good P (jump p)
  unfolding jump
  jump-Good p h = elim (Bool-cases (is_truthy p.jump_path)) [
    | inl e ↦ rw e (opens-Good p.jump_path p h)
    | inr e ↦ rw e h
  ]

  step-Good : (p : Page) (e : Event) → Fitting P p e → Good P p → Good P (step p e)
  unfolding step
  step-Good p (open_at path) f h = opens-Good path p h
  step-Good p (set_jump path) f h = record {
    inv = h.inv;
    order = h.order;
    fresh = h.fresh;
    here = unfold path_of in h.here;
  }
  step-Good p go f h = jump-Good p h
  step-Good p (location url) f h = set_url-Good url p h
  step-Good p (set_view mode) f h = record {
    inv = h.inv;
    order = h.order;
    fresh = h.fresh;
    here = unfold path_of in h.here;
  }
  step-Good p (sort_by key) f h = files_step-Good _ p refl tt h
  step-Good p (select e) f h = files_step-Good (FileSystem.select e) p refl tt h
  step-Good p close f h = files_step-Good FileSystem.close p refl tt h
  step-Good p (list_reply i o) f h = files_step-Good (FileSystem.list_reply i o) p refl f h
  step-Good p (detail_reply i o) f h = files_step-Good (FileSystem.detail_reply i o) p refl tt h

  run-Good : (p : Page) (es : List Event) → Replies P p es → Good P p → Good P (run p es)
  unfolding run
  run-Good p [] r h = h
  run-Good p (e ∷ es) r h = run-Good (step p e) es r.1 (step-Good p e r.0 h)

  opened-Good :
      (url : Option String) (prefixes : Option (List String)) → Good P (opened url prefixes)
  unfolding opened path_of
  opened-Good url prefixes =
      navigate-Good (url_path url prefixes) _ refl (start-Inv (url_path url prefixes))
        (start-InOrder (url_path url prefixes))

-- The URL is the source of truth: whatever the user opens, and in whatever order replies come, the
-- page's directory is the one that the URL names; and for any property that each listing has of the
-- path that was asked for, a failed one's empty rows included, the rows shown have it of the URL's
-- path as soon as no listing is awaited.
pub run-current_path :
    (P : String → List Entry → Type 0) (url : Option String) (prefixes : Option (List String))
    (es : List Event)
    → Replies P (opened url prefixes) es
    → let p = run (opened url prefixes) es in
      (p.files.current_path ≡ path_of p)
      × (((view p.files).awaits ≡ true) ⊎ P (path_of p) p.files.entries)
unfolding view
run-current_path P url prefixes es r =
    let h = run-Good P (opened url prefixes) es r (opened-Good P url prefixes) in
    (
      h.here,
      elim h.fresh [
        | inl w ↦ inl w
        | inr k ↦ inr (subst (λ q. P q (run (opened url prefixes) es).files.entries) h.here k)
      ],
    )
