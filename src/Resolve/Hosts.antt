-- ===== src/Resolve/Hosts.antt =====
-- resolver.c, `resolve_host_argument_list`: which hosts the list holds afterwards.
use filtergen.Base.{ℕ, Option, none, some, Text, List, [], ◌∷◌, ◌++◌, ◌≡◌, refl, ap, ◌∙◌, sym}
use mathlib.Core.List.{append_assoc, append-nil}
use filtergen.Filter.Types.{Family}
use filtergen.Glue.Ast.{ArgumentList, no_list, arguments, HostArgument}
use filtergen.Resolve.{Network, add_hosts, put_addresses, resolve_host, resolve_host_argument_list}

-- The hosts of a list, in the order in which they are converted.
abbrev pub host_of : Option Text → List Text
host_of none = []
host_of (some h) = h ∷ []

unfoldable pub hosts : ArgumentList HostArgument → List Text
hosts no_list = []
hosts (arguments list none p) = hosts list
hosts (arguments list (some a) p) = hosts list ++ host_of a.host

module _ (net : Network) (family : Family) where
  abbrev pub given : List (Option Text) → List Text
  given [] = []
  given (none ∷ more) = given more
  given (some s ∷ more) = s ∷ given more

  -- The addresses of one host: the first comes last.
  abbrev pub addresses : Text → Option (Option Text × List (Option Text)) → List Text
  addresses h none = h ∷ []
  addresses h (some (none, more)) = net.fresh_text ∷ []
  addresses h (some (some s, more)) = given more ++ s ∷ []

  -- All of them, host by host.
  abbrev pub all_addresses : List Text → List Text
  all_addresses [] = []
  all_addresses (h ∷ hs) = addresses h (net.getaddrinfo family h) ++ all_addresses hs

  all_addresses-append :
      (a b : List Text) → all_addresses (a ++ b) ≡ all_addresses a ++ all_addresses b
  all_addresses-append [] b = refl
  all_addresses-append (h ∷ a) b =
      ap (λ l. addresses h (net.getaddrinfo family h) ++ l) (all_addresses-append a b)
      ∙ sym (
          append_assoc (addresses h (net.getaddrinfo family h)) (all_addresses a) (all_addresses b))

  hosts-add_hosts :
      (mask : Option Text) (more : List (Option Text)) (list : ArgumentList HostArgument)
      → hosts (add_hosts net mask more list) ≡ hosts list ++ given more
  unfolding hosts add_hosts
  hosts-add_hosts mask [] list = sym (append-nil (hosts list))
  hosts-add_hosts mask (none ∷ more) list = hosts-add_hosts mask more list
  hosts-add_hosts mask (some s ∷ more) list =
      hosts-add_hosts mask more _ ∙ append_assoc (hosts list) (s ∷ []) (given more)

  hosts-put_addresses :
      (list : ArgumentList HostArgument) (a : HostArgument) (p : ℕ) (h : Text)
      (found : Option (Option Text × List (Option Text)))
      → a.host ≡ some h
      → hosts (put_addresses net list a p found) ≡ hosts list ++ addresses h found
  unfolding hosts
  hosts-put_addresses list a p h none e = rw e refl
  hosts-put_addresses list a p h (some (none, more)) e = refl
  hosts-put_addresses list a p h (some (some s, more)) e =
      ap (λ l. l ++ s ∷ []) (hosts-add_hosts a.mask more list)
      ∙ append_assoc (hosts list) (given more) (s ∷ [])

  hosts-resolve_host :
      (list : ArgumentList HostArgument) (a : HostArgument) (p : ℕ) (h : Option Text)
      → a.host ≡ h
      → hosts (resolve_host net family list a p h) ≡ hosts list ++ all_addresses (host_of h)
  unfolding hosts
  hosts-resolve_host list a p none e = rw e refl
  hosts-resolve_host list a p (some h) e =
      hosts-put_addresses list a p h (net.getaddrinfo family h) e
      ∙ ap (λ l. hosts list ++ l) (sym (append-nil (addresses h (net.getaddrinfo family h))))

  -- After `resolve_host_argument_list` the hosts of a list are those that each host that it had
  -- becomes, host by host. A name for which getaddrinfo fails stays. Otherwise the name goes: where
  -- the first address has a text, it becomes all addresses that have a text, the first one last;
  -- where getnameinfo gives no text for the first address, it becomes the text that was never
  -- written into the memory taken for it, and the further addresses are left out, with or without a
  -- text.
  pub hosts-resolve :
      (list : ArgumentList HostArgument)
      → hosts (resolve_host_argument_list net family list) ≡ all_addresses (hosts list)
  unfolding hosts resolve_host_argument_list
  hosts-resolve no_list = refl
  hosts-resolve (arguments list none p) = hosts-resolve list
  hosts-resolve (arguments list (some a) p) =
      hosts-resolve_host (resolve_host_argument_list net family list) a p a.host refl
      ∙ ap (λ l. l ++ all_addresses (host_of a.host)) (hosts-resolve list)
      ∙ sym (all_addresses-append (hosts list) (host_of a.host))
