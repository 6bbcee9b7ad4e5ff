-- ===== src/Provider/Pages.antt =====
-- The lookups that page through a listing of the SDK: ListServerGroupsByName.
use alibaba_cloud_nlb_pool_o.Base.{
  ℕ, zero, suc, String, Bool, true, false, List, [], ◌∷◌, ◌++◌, Option, none, some, length, ◌≡◌,
  refl, ℤ, show_ℤ, ◌<>◌, sym, ap, ◌∙◌, ◌≤◌, arith, ◌==◌, if◌then◌else◌,
}
use alibaba_cloud_nlb_pool_o.World.{ok}
use alibaba_cloud_nlb_pool_o.Provider.Client.{Act}
use alibaba_cloud_nlb_pool_o.Provider.Sdk.{SdkServerGroup, SdkListener, Page, SdkAct, Sdk}
use alibaba_cloud_nlb_pool_o.Provider.Cloud.{
  present, first, in_page, after_page, find_in_pages, groups_named, next_groups, is_group_named,
  listeners_of, next_listeners, is_listener_at, list_listeners_by_port, list_server_groups_by_name,
}

-- all the elements of the pages, in order
abbrev pub concat : {A : Type 0} → List (List (Option A)) → List (Option A)
concat [] = []
concat (page ∷ pages) = page ++ concat pages

-- the id of what was found, or blank
abbrev pub id_or_blank : {A : Type 0} → (A → String) → Option A → String
id_or_blank id_of none = ""
id_or_blank id_of (some x) = id_of x

abbrev or_else : {A : Type 0} → Option A → Option A → Option A
or_else none y = y
or_else (some x) y = some x

first-append :
    {A : Type 0} (p : A → Bool) (xs ys : List (Option A))
    → first p (present (xs ++ ys)) ≡ or_else (first p (present xs)) (first p (present ys))
unfolding first present
first-append p [] ys = refl
first-append p (none ∷ xs) ys = first-append p xs ys
first-append {A} p (some x ∷ xs) ys =
    branch (p x) _ (first p (present xs)) (first p (present ys)) (first-append p xs ys)
  where
    branch :
        (t : Bool) (a b c : Option A)
        → a ≡ or_else b c
        → (if t then some x else a) ≡ or_else (if t then some x else b) c
    branch true a b c e = refl
    branch false a b c e = e

append-nil : {A : Type 0} (xs : List A) → xs ++ [] ≡ xs
append-nil [] = refl
append-nil (x ∷ xs) = ap (λ ys. x ∷ ys) (append-nil xs)

module _ {S R A : Type 0} (list : R → String → SdkAct S (Page A)) (next : String → R → R)
    (region : String) where
  -- the listing answers these pages, one after the other, and the last has no next token
  abbrev pub Serves : R → S → List (List (Option A)) → Type 0
  Serves request s [] = ⊥
  Serves request s (items ∷ []) =
      (body : Page A) × ((list request region s).0 ≡ ok (some body))
      × (body.items ≡ items)
      × ((body.next_token == "") ≡ true)
  Serves request s (items ∷ page ∷ pages) =
      (body : Page A) × ((list request region s).0 ≡ ok (some body))
      × (body.items ≡ items)
      × ((body.next_token == "") ≡ false)
      × Serves (next body.next_token request) (list request region s).1 (page ∷ pages)

  module _ (sdk : Sdk S) (name context : String) (matches : A → Bool) (id_of : A → String) where
    in_page-last :
        (o : Option A) (token : String) (more : String → Act S String) (s : S)
        → (token == "") ≡ true
        → in_page id_of o token more s ≡ some (ok (id_or_blank id_of o), s)
    unfolding in_page
    in_page-last none token more s e = ap (λ b. if b then some (ok "", s) else more token s) e
    in_page-last (some x) token more s e = refl

    in_page-more :
        (o q : Option A) (token : String) (more : String → Act S String) (s s2 : S)
        → (token == "") ≡ false
        → more token s ≡ some (ok (id_or_blank id_of q), s2)
        → (s' : S) × (in_page id_of o token more s
            ≡ some (ok (id_or_blank id_of (or_else o q)), s'))
    unfolding in_page
    in_page-more none q token more s s2 e f =
        (s2, ap (λ b. if b then some (ok "", s) else more token s) e ∙ f)
    in_page-more (some x) q token more s s2 e f = (s, refl)

    abbrev search_pages : ℕ → R → Act S String
    search_pages fuel request s =
        find_in_pages sdk region list next name context matches id_of fuel request s

    one_page :
        (fuel : ℕ) (request : R) (s : S) (body : Page A)
        → (list request region s).0 ≡ ok (some body)
        → search_pages (suc fuel) request s
          ≡ in_page id_of
              (first matches (present body.items))
              body.next_token
              (λ token. search_pages fuel (next token request))
              (list request region s).1
    unfolding find_in_pages after_page
    one_page fuel request s body e =
        ap
          (λ r.
            after_page name context matches id_of (λ token. search_pages fuel (next token request))
              (r, (list request region s).1))
          e

    -- With fuel for the pages, the lookup ends with the first match of all of them, or blank.
    pub find_in_pages_lem :
        (fuel : ℕ) (request : R) (s : S) (pages : List (List (Option A)))
        → Serves request s pages
        → length pages ≤ fuel
        → (s' : S) × (find_in_pages sdk region list next name context matches id_of fuel request s
            ≡ some (ok (id_or_blank id_of (first matches (present (concat pages)))), s'))
    find_in_pages_lem fuel request s [] served h = elim served [ ]
    find_in_pages_lem zero request s (items ∷ pages) served h = elim h [ ]
    find_in_pages_lem (suc fuel) request s (items ∷ []) (body, e, i, l) h = (
      (list request region s).1,
      one_page fuel request s body e
          ∙ in_page-last _ _ _ (list request region s).1 l
          ∙ ap
              (λ (xs : List (Option A)).
                some
                  (ok (id_or_blank id_of (first matches (present xs))), (list request region s).1))
              (i ∙ sym (append-nil items)),
    )
    find_in_pages_lem (suc fuel) request s (items ∷ page ∷ pages) (body, e, i, l, rest) h =
        let (s2, f) =
          find_in_pages_lem fuel (next body.next_token request) (list request region s).1
            (page ∷ pages) rest (omega arith) in
        let (s', g) =
          in_page-more (first matches (present body.items))
            (first matches (present (concat (page ∷ pages)))) body.next_token
            (λ token. search_pages fuel (next token request)) (list request region s).1 s2 l f in
        (
          s',
          one_page fuel request s body e
              ∙ g
              ∙ ap (λ o. some (ok (id_or_blank id_of o), s'))
                  (ap
                      (λ xs.
                        or_else (first matches (present xs))
                          (first matches (present (concat (page ∷ pages)))))
                      i
                    ∙ sym (first-append matches items (concat (page ∷ pages)))),
        )

not_blank : {B : Type 0} (b : Bool) (x y : B) {z : B} → b ≡ false → y ≡ z → (if b then x else y) ≡ z
not_blank b x y e f = ap (λ c. if c then x else y) e ∙ f

-- ListServerGroupsByName with a name that is not blank, over a listing of finitely many pages and with fuel
-- for them, ends and answers the id of the first server group of all the pages that has the name, in the VPC
-- where one is given, or blank where there is none.
pub list_server_groups_by_name_lem :
    {S : Type 0} (sdk : Sdk S) (region : String) (fuel : ℕ) (vpc_id name : String) (s : S)
    (pages : List (List (Option SdkServerGroup)))
    → (name == "") ≡ false
    → Serves sdk.list_server_groups next_groups region (groups_named vpc_id name) s pages
    → length pages ≤ fuel
    → (s' : S) × (list_server_groups_by_name sdk region fuel vpc_id name s
        ≡ some (
          ok (
              id_or_blank
                (λ (sg : SdkServerGroup). sg.server_group_id)
                (first (is_group_named vpc_id name) (present (concat pages)))),
          s',
        ))
unfolding list_server_groups_by_name
list_server_groups_by_name_lem sdk region fuel vpc_id name s pages named served h =
    let (s', found) =
      find_in_pages_lem sdk.list_server_groups next_groups region sdk "ListServerGroupsByName"
        (" (name=" <> name <> ")") (is_group_named vpc_id name) (λ sg. sg.server_group_id) fuel
        (groups_named vpc_id name) s pages served h in
    (s', not_blank _ _ _ named found)

-- The same of ListListenersByPort: the first listener of all the pages at the port of the load balancer.
pub list_listeners_by_port_lem :
    {S : Type 0} (sdk : Sdk S) (region : String) (fuel : ℕ) (id : String) (port : ℤ) (s : S)
    (pages : List (List (Option SdkListener)))
    → (id == "") ≡ false
    → Serves sdk.list_listeners next_listeners region (listeners_of id) s pages
    → length pages ≤ fuel
    → (s' : S) × (list_listeners_by_port sdk region fuel id port s
        ≡ some (
          ok (
              id_or_blank
                (λ (l : SdkListener). l.listener_id)
                (first (is_listener_at id port) (present (concat pages)))),
          s',
        ))
unfolding list_listeners_by_port
list_listeners_by_port_lem sdk region fuel id port s pages named served h =
    let (s', found) =
      find_in_pages_lem sdk.list_listeners next_listeners region sdk "ListListenersByPort"
        (" (nlb=" <> id <> ", port=" <> show_ℤ port <> ")") (is_listener_at id port)
        (λ l. l.listener_id) fuel (listeners_of id) s pages served h in
    (s', not_blank _ _ _ named found)
