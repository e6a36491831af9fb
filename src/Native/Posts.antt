-- ===== src/Native/Posts.antt =====
-- The posts of events: postToContentPorts of addon/js/background/content-ports.js, and the forwarding in
-- onPackedData of addon/js/background/nm.js. Whether posting to a port throws is an argument.
use ff_web_hid.Prelude.{
  ℕ, String, List, [], ◌∷◌, ◌++◌, Option, none, some, Bool, false, not, ◌&&◌, ◌||◌, ◌==◌, nat_eq,
  string_eq, if◌then◌else◌, ◌≡◌, refl, arith, Option-cases, Bool-cases, inl, inr, ◌+◌,
}
use ff_web_hid.Prelude.Maps.{contains}
use ff_web_hid.Prelude.Texts.{is_blank}

-- A port of the set: its identity, its name, and the tab of its sender if it has one.
pub record ContentPort : Type 0 where
  pub id : ℕ
  pub name : String
  pub tab_id : Option ℕ

-- The tests of `continue`, for targets that are listed.
unfoldable pub is_addressed : List ℕ → String → ContentPort → Bool
is_addressed targets name port =
    (is_blank name || port.name == name)
    && (elim port.tab_id [ none ↦ false | some tab ↦ contains tab targets ])

-- The ports that are kept, the ports that the message was posted to, and the tabs reached.
pub record Posted : Type 0 where
  pub ports : List ContentPort
  pub posted : List ContentPort
  pub reached : List ℕ

tab_of : ContentPort → List ℕ
tab_of port = elim port.tab_id [ none ↦ [] | some tab ↦ tab ∷ [] ]

unfoldable pub post_to_content_ports :
    (ContentPort → Bool) → List ℕ → String → List ContentPort → Posted
unfolding tab_of
post_to_content_ports throws targets name [] = record { ports = []; posted = []; reached = [] }
post_to_content_ports throws targets name (port ∷ ports) =
    let more = post_to_content_ports throws targets name ports in
    if not (is_addressed targets name port)
    then record more { ports = port ∷ more.ports }
    else if throws port
    then more
    else record {
      ports = port ∷ more.ports;
      posted = port ∷ more.posted;
      reached = tab_of port ++ more.reached;
    }

-- `for (const tabId of targets) { if (reached.has(tabId)) continue; browser.tabs.sendMessage(tabId, …) }`
unfoldable pub forward_rest : List ℕ → List ℕ → List ℕ
forward_rest reached [] = []
forward_rest reached (tab ∷ targets) =
    if contains tab reached
    then forward_rest reached targets
    else tab ∷ forward_rest reached targets

unfoldable pub keep_where : (ContentPort → Bool) → List ContentPort → List ContentPort
keep_where test [] = []
keep_where test (port ∷ ports) =
    if test port then port ∷ keep_where test ports else keep_where test ports

-- Whether one of the ports is of the tab.
unfoldable pub has_tab : ℕ → List ContentPort → Bool
unfolding tab_of
has_tab tab [] = false
has_tab tab (port ∷ ports) = contains tab (tab_of port) || has_tab tab ports

-- How often a tab is in a list.
unfoldable pub times : ℕ → List ℕ → ℕ
times tab [] = 0
times tab (t ∷ tabs) = (if t == tab then 1 else 0) + times tab tabs

reached-posted :
    (throws : ContentPort → Bool) (targets : List ℕ) (name : String) (ports : List ContentPort)
    (tab : ℕ)
    → (let r = post_to_content_ports throws targets name ports in
        contains tab r.reached ≡ has_tab tab r.posted)
unfolding post_to_content_ports contains has_tab
reached-posted throws targets name [] tab = refl
reached-posted throws targets name (port ∷ ports) tab =
    elim (Bool-cases (is_addressed targets name port)) [
      | inr other ↦ rw other (reached-posted throws targets name ports tab)
      | inl addressed ↦ elim (Option-cases port.tab_id) [
        | inl unknown ↦
            ground (arith, addressed, unknown, reached-posted throws targets name ports tab)
        | inr (t, known) ↦
            ground (arith, addressed, known, reached-posted throws targets name ports tab)
      ]
    ]

times-forward_rest :
    (reached targets : List ℕ) (tab : ℕ)
    → times tab (forward_rest reached targets)
      ≡ (if contains tab reached then 0 else times tab targets)
unfolding forward_rest times
times-forward_rest reached [] tab = ground arith
times-forward_rest reached (t ∷ targets) tab =
    ground (arith, times-forward_rest reached targets tab)

posted-keep_where :
    (throws : ContentPort → Bool) (targets : List ℕ) (name : String) (ports : List ContentPort)
    → (post_to_content_ports throws targets name ports).posted
      ≡ keep_where (λ port. is_addressed targets name port && not (throws port)) ports
unfolding post_to_content_ports keep_where
posted-keep_where throws targets name [] = refl
posted-keep_where throws targets name (port ∷ ports) =
    ground (arith, posted-keep_where throws targets name ports)

-- An event is posted to exactly the ports that it is for and whose posts do not throw, in their order; and
-- it is sent to a tab in a message of its own as often as the tab is listed as a target when no port of the
-- tab took it, and never when one did. So it is neither lost for a target nor delivered in both ways.
pub event_delivered_once :
    (throws : ContentPort → Bool) (targets : List ℕ) (name : String) (ports : List ContentPort)
    (tab : ℕ)
    → (let r = post_to_content_ports throws targets name ports in
        (r.posted ≡ keep_where (λ port. is_addressed targets name port && not (throws port)) ports)
        × (times tab (forward_rest r.reached targets)
            ≡ (if has_tab tab r.posted then 0 else times tab targets)))
event_delivered_once throws targets name ports tab =
    let r = post_to_content_ports throws targets name ports in
    (
      posted-keep_where throws targets name ports,
      ground (
        arith,
        times-forward_rest r.reached targets tab,
        reached-posted throws targets name ports tab,
      ),
    )

-- The ports that are dropped from the set are exactly those that the message was for and whose post
-- threw; the others stay, in their order.
pub dead_ports_dropped :
    (throws : ContentPort → Bool) (targets : List ℕ) (name : String) (ports : List ContentPort)
    → (post_to_content_ports throws targets name ports).ports
      ≡ keep_where (λ port. not (is_addressed targets name port && throws port)) ports
unfolding post_to_content_ports keep_where
dead_ports_dropped throws targets name [] = refl
dead_ports_dropped throws targets name (port ∷ ports) =
    ground (arith, dead_ports_dropped throws targets name ports)
