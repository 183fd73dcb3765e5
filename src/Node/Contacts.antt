-- ===== src/Node/Contacts.antt =====
-- What the operations on contacts do to one another.
use ratnet.Prelude.{
  ◌≡◌, ap, ◌∙◌, true, false, some, none, Bytes, bytes_eq, bytes_beq, lookup, insert, lookup-insert,
  lookup_inserted, delete, lookup_deleted,
}
use ratnet.Go.{Failure, returned, failed, Action, pure, continue}
use ratnet.Wire.Value.{Contact}
use ratnet.Node.{Crypto, Node}
use ratnet.Node.Admin.{found, if_found, get_contact, add_contact, delete_contact}

module _ {Pub Priv : Type 0} (crypto : Crypto Pub Priv) where
  abbrev shown : Bytes → Contact → Action (Node Pub Priv) Contact
  shown name c = pure (record { name = name; pubkey = c.pubkey })

  add_contact_lem :
      (name key : Bytes) (node : Node Pub Priv)
      → crypto.validate_pub_key node.content_key key ≡ true
      → add_contact crypto name key node ≡ (
        returned tt,
        record node { contacts = insert name (record { name = name; pubkey = key }) node.contacts },
      )
  unfolding add_contact
  add_contact_lem name key node h = rw h

  get_contact-some :
      (name : Bytes) (c : Contact) (node : Node Pub Priv)
      → lookup name node.contacts ≡ some c
      → get_contact crypto name node ≡ (returned (record { name = name; pubkey = c.pubkey }), node)
  unfolding get_contact
  get_contact-some name c node h =
      ap (λ o. continue (found Failure.contact_not_found o node) (shown name)) h

  get_contact-none :
      (name : Bytes) (node : Node Pub Priv)
      → lookup name node.contacts ≡ none
      → get_contact crypto name node ≡ (failed Failure.contact_not_found, node)
  unfolding get_contact
  get_contact-none name node h =
      ap (λ o. continue (found Failure.contact_not_found o node) (shown name)) h

  delete_contact-some :
      (name : Bytes) (c : Contact) (node : Node Pub Priv)
      → lookup name node.contacts ≡ some c
      → delete_contact crypto name node
        ≡ (returned tt, record node { contacts = delete name node.contacts })
  unfolding delete_contact
  delete_contact-some name c node h =
      ap
        (λ o.
          if_found Failure.contact_not_found o node
            (record node { contacts = delete name node.contacts }))
        h

  -- A contact that is added with a valid key is found, and the other contacts stay; one that is
  -- deleted is found no longer.
  pub contact_rules :
      (name other key : Bytes) (node : Node Pub Priv)
      → crypto.validate_pub_key node.content_key key ≡ true
      → bytes_beq name other ≡ false
      → let added = (add_contact crypto name key node).1 in
        ((get_contact crypto name added).0 ≡ returned (record { name = name; pubkey = key }))
        × (lookup other added.contacts ≡ lookup other node.contacts)
        × ((delete_contact crypto name added).0 ≡ returned tt)
        × ((get_contact crypto name (delete_contact crypto name added).1).0
            ≡ failed Failure.contact_not_found)
  contact_rules name other key node h ne =
      let c : Contact = record { name = name; pubkey = key } in
      let kept : Node Pub Priv = record node { contacts = insert name c node.contacts } in
      let gone : Node Pub Priv = record kept { contacts = delete name kept.contacts } in
      let there = lookup_inserted name c node.contacts in
      let deleted = delete_contact-some name c kept there in
      let absent = get_contact-none name gone (lookup_deleted name kept.contacts) in
      rw (add_contact_lem name key node h) (
        ap (λ r. r.0) (get_contact-some name c kept there),
        lookup-insert name other c node.contacts ∙ rw ne,
        ap (λ r. r.0) deleted,
        ap (λ r. (get_contact crypto name r.1).0) deleted ∙ ap (λ r. r.0) absent,
      )
