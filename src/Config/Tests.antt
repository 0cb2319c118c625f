-- ===== src/Config/Tests.antt =====
-- Runs of the configuration tree (apt-pkg/contrib/configuration.cc), and its theorems at a concrete tree.
use aptum.Prelude.{◌≡◌, refl, true, false, [], ◌∷◌, none, some, if◌then◌else◌}
use aptum.Chars.{codes, tolower_ascii}
use aptum.Strings.Order.{stringcasecmp}
use aptum.Config.Items.{Items, nil, item, name_tags}
use aptum.Config.Access.{
  find, set, cnd_set, clear, find_vector, clear_value, clear_loop, value_or, itself,
}
use aptum.Config.Names.{name_tags-full_tag}
use aptum.Config.Stored.{find-set, find-clear, same_tags, below_tags, tags_of}
use aptum.Config.Walk.{full_tag, dump, dump-preorder, dump_line, write_all, preorder}
use aptum.Config.Lists.{clear_loop-without, begins_twice, without}

abbrev tree : Items
tree =
    item (codes "APT") []
      (item (codes "Fds") []
        (item [] (codes "3") nil (item [] (codes "3") nil (item [] (codes "5") nil nil)))
        (item (codes "Arch") (codes "amd64") nil nil))
      (item (codes "Dir") (codes "/") nil nil)

found : find (codes "apt::ARCH") (codes "all") tree ≡ codes "amd64"
unfolding find stringcasecmp tolower_ascii
found = refl

cut_name : name_tags (codes "a::::b::c::") ≡ (codes "a", codes "::b" ∷ codes "c" ∷ [] ∷ [])
unfolding name_tags
cut_name = refl

appended :
    find_vector (codes "APT::Fds") [] false (set (codes "APT::Fds::") (codes "7") tree)
    ≡ codes "3" ∷ codes "3" ∷ codes "5" ∷ codes "7" ∷ []
unfolding find_vector set stringcasecmp tolower_ascii
appended = refl

two_first : clear_value (codes "APT::Fds") (codes "3") tree ≡ none
unfolding clear_value stringcasecmp tolower_ascii
two_first = refl

written :
    dump
      (codes "%F \"%v\";\n")
      true
      (item (codes "APT") [] (item (codes "Arch") (codes "amd64") nil nil) nil)
    ≡ codes "APT \"\";\nAPT::Arch \"amd64\";\n"
unfolding dump
written = refl

find-set_example :
    (find (codes "apt::fds") (codes "x") (set (codes "APT::Fds") (codes "y") tree) ≡ (
      if same_tags (tags_of (codes "apt::fds")) (tags_of (codes "APT::Fds"))
      then value_or (codes "x") (codes "y")
      else find (codes "apt::fds") (codes "x") tree))
    × (find (codes "apt::fds") (codes "x") (cnd_set (codes "APT::Fds") (codes "y") tree) ≡ (
        if same_tags (tags_of (codes "apt::fds")) (tags_of (codes "APT::Fds"))
        then find (codes "apt::fds") (value_or (codes "x") (codes "y")) tree
        else find (codes "apt::fds") (codes "x") tree))
find-set_example = find-set (codes "APT::Fds") (codes "apt::fds") (codes "y") (codes "x") tree

find-clear_example : find (codes "apt::arch") (codes "x") (clear (codes "APT") tree) ≡ (
    if below_tags (tags_of (codes "apt::arch")) (tags_of (codes "APT"))
    then codes "x"
    else find (codes "apt::arch") (codes "x") tree)
find-clear_example = find-clear (codes "APT") (codes "apt::arch") (codes "x") tree

name_tags-full_tag_example :
    name_tags (full_tag (codes "Get") (codes "APT" ∷ [])) ≡ (codes "APT", codes "Get" ∷ [])
name_tags-full_tag_example =
    name_tags-full_tag (codes "Get") (codes "APT" ∷ []) ((refl, refl), refl)

dump-preorder_example :
    dump (codes "%F \"%v\";\n") true tree ≡ write_all dump_line true (preorder [] tree)
dump-preorder_example = dump-preorder tree

abbrev fds : Items
fds = item [] (codes "3") nil (item [] (codes "5") nil (item [] (codes "3") nil nil))

clear_loop-without_example :
    clear_loop (codes "3") itself fds
    ≡ (if begins_twice (codes "3") fds then none else some (without (codes "3") fds))
clear_loop-without_example = clear_loop-without (codes "3") fds
